-- ===== src/Consensus/Once.antt =====
-- How often a PREPARE or an ACK of pset2/ctconsensus.cc is under way or has been counted.
use cs2620_s26_psets.Base.{
  ℕ, ◌+◌, ◌≡◌, Bool, true, false, ◌&&◌, ◌||◌, List, [], ◌∷◌, ◌++◌, arith, ltb, leb, ◌==◌,
  if◌then◌else◌,
}
use cs2620_s26_psets.Consensus.Msgs.{
  Message, MessageType, m_prepare, m_ack, same_type, Sent, to_server, to_nancy,
}
use cs2620_s26_psets.Consensus.Server.{
  Server, Phase, await_prepare, await_propose, await_ack, finished,
}

-- The two kinds of messages that a leader counts.
pub data Counted : Type 0 where
  k_prepare k_ack : Counted

abbrev pub type_of : Counted → MessageType
type_of k_prepare = m_prepare
type_of k_ack = m_ack

abbrev pub one_if : Bool → ℕ
one_if true = 1
one_if false = 0

-- A message of a kind, a round and a sender.
abbrev pub is_one : Counted → ℕ → ℕ → Message → Bool
is_one k q i m = same_type m.type (type_of k) && (m.round == q && m.sender == i)

unfoldable pub in_list : Counted → ℕ → ℕ → List Message → ℕ
in_list k q i [] = 0
in_list k q i (m ∷ ms) = one_if (is_one k q i m) + in_list k q i ms

unfoldable pub occurrences : ℕ → List ℕ → ℕ
occurrences i [] = 0
occurrences i (x ∷ xs) = one_if (x == i) + occurrences i xs

abbrev pub counts_now : Counted → Phase → Bool
counts_now k_prepare (await_prepare c) = true
counts_now k_prepare await_propose = false
counts_now k_prepare (await_ack a t) = false
counts_now k_prepare finished = false
counts_now k_ack (await_prepare c) = false
counts_now k_ack await_propose = false
counts_now k_ack (await_ack a t) = true
counts_now k_ack finished = false

-- Those that a server holds: in its stash, and counted.
unfoldable pub held : Counted → ℕ → ℕ → Server → ℕ
unfolding in_list occurrences
held k q i s =
    in_list k q i s.stash
    + (if counts_now k s.phase && s.round == q then occurrences i s.counted else 0)

abbrev pub has_acked : Phase → Bool
has_acked (await_prepare c) = false
has_acked await_propose = false
has_acked (await_ack a t) = true
has_acked finished = true

-- Those that a server may have sent.
unfoldable pub may_send : Counted → ℕ → Server → ℕ
may_send k_prepare q s = one_if (leb q s.round)
may_send k_ack q s = one_if (ltb q s.round || (q == s.round && has_acked s.phase))

-- Those among messages to be sent, whose sender is not yet set.
unfoldable pub outgoing : Counted → ℕ → List Sent → ℕ
outgoing k q [] = 0
outgoing k q ((to, m) ∷ sent) =
    one_if (same_type m.type (type_of k) && m.round == q) + outgoing k q sent

-- Those on their way to a server.
unfoldable pub fly_one : Counted → ℕ → ℕ → ℕ → Sent → ℕ
fly_one k q i l (to_server d, m) = one_if (d == l && is_one k q i m)
fly_one k q i l (to_nancy, m) = 0

unfoldable pub flying : Counted → ℕ → ℕ → ℕ → List Sent → ℕ
unfolding fly_one
flying k q i l [] = 0
flying k q i l (o ∷ sent) = fly_one k q i l o + flying k q i l sent

pub in_list-append :
    (k : Counted) (q i : ℕ) (ms : List Message) (m : Message)
    → in_list k q i (ms ++ (m ∷ [])) ≡ in_list k q i ms + one_if (is_one k q i m)
unfolding in_list
in_list-append k q i [] m = omega arith
in_list-append k q i (x ∷ ms) m = omega (arith, in_list-append k q i ms m)

pub flying-append :
    (k : Counted) (q i l : ℕ) (xs ys : List Sent)
    → flying k q i l (xs ++ ys) ≡ flying k q i l xs + flying k q i l ys
unfolding flying
flying-append k q i l [] ys = omega arith
flying-append k q i l (o ∷ xs) ys = omega (arith, flying-append k q i l xs ys)

pub outgoing-append :
    (k : Counted) (q : ℕ) (xs ys : List Sent)
    → outgoing k q (xs ++ ys) ≡ outgoing k q xs + outgoing k q ys
unfolding outgoing
outgoing-append k q [] ys = omega arith
outgoing-append k q ((to, m) ∷ xs) ys = omega (arith, outgoing-append k q xs ys)
