-- ===== src/Consensus/OnceNet.antt =====
-- In a run of pset2/ctconsensus.cc: what is under way to, and held by, each server.
use mathlib.Core.Option.{some-injective}
use cs2620_s26_psets.Base.{
  ℕ, zero, suc, ◌+◌, ◌≤◌, ◌≡◌, refl, ap, inl, inr, true, false, ◌&&◌, some, List, [], ◌∷◌, ◌++◌,
  arith, ltb, ◌==◌, if◌then◌else◌, Bool-cases, Option-cases, get_elem?, ==_iff,
}
use cs2620_s26_psets.Consensus.Msgs.{Message, Sent, to_server, to_nancy}
use cs2620_s26_psets.Consensus.Server.{Server, from_network, from_stash, failure, handle_message}
use cs2620_s26_psets.Consensus.Net.{
  System, from_sender, set_server, remove_at, receive_message, ConsensusEvent, on_message, on_stash,
  on_failure, consensus_step, consensus_run,
}
use cs2620_s26_psets.Consensus.Once.{
  Counted, k_prepare, k_ack, one_if, is_one, occurrences, counts_now, held, may_send, outgoing,
  fly_one, flying, flying-append,
}
use cs2620_s26_psets.Consensus.OnceServer.{Sends, handle-Sends, failure-Sends, stash-Sends}
use cs2620_s26_psets.Consensus.OnceHeld.{Holds, handle-Holds, failure-Holds, stash-Holds}

-- Whoever holds them, there are no more than were sent.
unfoldable pub Once : System → Type 0
Once y =
    (k : Counted) (q i l : ℕ)
    → flying k q i l y.in_flight + held k q i (y.servers l) ≤ may_send k q (y.servers i)

pub flying-sender :
    (k : Counted) (q i l j : ℕ) (out : List Sent)
    → flying k q i l (from_sender j out) ≤ (if j == i then outgoing k q out else 0)
unfolding flying from_sender outgoing fly_one
flying-sender k q i l j [] = ground arith
flying-sender k q i l j ((to_server d, m) ∷ out) = ground (arith, flying-sender k q i l j out)
flying-sender k q i l j ((to_nancy, m) ∷ out) = ground (arith, flying-sender k q i l j out)

flying-remove_at :
    (k : Counted) (q i l : ℕ) (xs : List Sent) (p : ℕ) (o : Sent)
    → get_elem? xs p ≡ some o
    → flying k q i l xs ≡ fly_one k q i l o + flying k q i l (remove_at xs p)
unfolding flying remove_at
flying-remove_at k q i l [] p o e = cc
flying-remove_at k q i l (x ∷ xs) zero o e =
    ap (λ z. fly_one k q i l z + flying k q i l xs) (some-injective x o e)
flying-remove_at k q i l (x ∷ xs) (suc p) o e = omega (arith, flying-remove_at k q i l xs p o e)

same_server : (j : ℕ) → (j == j) ≡ true
same_server j = (==_iff j j).1 refl

set-Holds :
    (j l : ℕ) (r : Server × List Sent) (f : ℕ → Server) (k : Counted) (q i extra : ℕ)
    → Holds k q i (f j) extra r
    → held k q i (if l == j then r.0 else f l) ≤ held k q i (f l) + (if l == j then extra else 0)
set-Holds j l r f k q i extra h = elim (Bool-cases (l == j)) [
  | inl e ↦ rw ((==_iff l j).0 e, same_server j) h
  | inr e ↦ rw e (omega arith)
]

set-Sends :
    (j i : ℕ) (r : Server × List Sent) (f : ℕ → Server) (k : Counted) (q : ℕ)
    → Sends k q (f j) r
    → (if j == i then outgoing k q r.1 else 0) + may_send k q (f i)
      ≤ may_send k q (if i == j then r.0 else f i)
set-Sends j i r f k q h = elim (Bool-cases (i == j)) [
  | inl e ↦ rw ((==_iff i j).0 e, same_server j) h
  | inr e ↦ rw (e, other e) (omega arith)
]
  where
    other : (i == j) ≡ false → (j == i) ≡ false
    other e = ground (arith, e)

-- Server j does something, with a message that is already taken from the network.
act-Once :
    (j : ℕ) (r : Server × List Sent) (y : System) (extra : Counted → ℕ → ℕ → ℕ)
    → ((k : Counted) (q : ℕ) → Sends k q (y.servers j) r)
    → ((k : Counted) (q i : ℕ) → Holds k q i (y.servers j) (extra k q i) r)
    → ((k : Counted) (q i l : ℕ)
        → flying k q i l y.in_flight
            + held k q i (y.servers l)
            + (if l == j then extra k q i else 0)
          ≤ may_send k q (y.servers i))
    → Once (set_server j r y)
unfolding Once set_server
act-Once j r y extra sends holds h k q i l = omega (
  arith,
  flying-append k q i l y.in_flight (from_sender j r.1),
  flying-sender k q i l j r.1,
  h k q i l,
  set-Holds j l r y.servers k q i (extra k q i) (holds k q i),
  set-Sends j i r y.servers k q (sends k q),
)

nancy_takes :
    (p : ℕ) (m : Message) (y : System)
    → get_elem? y.in_flight p ≡ some (to_nancy, m)
    → Once y
    → Once
        (record y { in_flight = remove_at y.in_flight p; to_observer = y.to_observer ++ (m ∷ []) })
unfolding Once fly_one
nancy_takes p m y e h k q i l =
    omega (arith, h k q i l, flying-remove_at k q i l y.in_flight p (to_nancy, m) e)

received :
    (p j : ℕ) (m : Message) (y : System)
    → get_elem? y.in_flight p ≡ some (to_server j, m)
    → Once y
    → (k : Counted) (q i l : ℕ)
    → flying k q i l (remove_at y.in_flight p)
        + held k q i (y.servers l)
        + (if l == j then one_if (is_one k q i m) else 0)
      ≤ may_send k q (y.servers i)
unfolding Once fly_one
received p j m y e h k q i l =
    ground (arith, h k q i l, flying-remove_at k q i l y.in_flight p (to_server j, m) e)

no_extra :
    (j : ℕ) (y : System)
    → Once y
    → (k : Counted) (q i l : ℕ)
    → flying k q i l y.in_flight + held k q i (y.servers l) + (if l == j then 0 else 0)
      ≤ may_send k q (y.servers i)
unfolding Once
no_extra j y h k q i l = ground (arith, h k q i l)

receive-Once :
    (p : ℕ) (o : Sent) (y : System)
    → get_elem? y.in_flight p ≡ some o
    → Once y
    → Once (receive_message p o y)
unfolding receive_message from_network
receive-Once p (to_nancy, m) y e h = nancy_takes p m y e h
receive-Once p (to_server j, m) y e h = elim (Bool-cases ((y.servers j).stash_size == 0)) [
  | inl f ↦
      rw (receive_message, f)
        (act-Once j (handle_message m (y.servers j))
          (record y { in_flight = remove_at y.in_flight p }) (λ k q i. one_if (is_one k q i m))
          (λ k q. handle-Sends k q m (y.servers j)) (λ k q i. handle-Holds k q i m (y.servers j))
          (λ k q i l. received p j m y e h k q i l))
  | inr f ↦ rw (receive_message, f) h
]

pub step-Once : (e : ConsensusEvent) (y : System) → Once y → Once (consensus_step e y)
unfolding consensus_step
step-Once (on_message p) y h = elim (Option-cases (get_elem? y.in_flight p)) [
  | inl f ↦ rw (consensus_step, f) h
  | inr (o, f) ↦ rw (consensus_step, f) (receive-Once p o y f h)
]
step-Once (on_stash j) y h = elim (Bool-cases (ltb j y.size)) [
  | inl f ↦
      rw (consensus_step, f)
        (act-Once j (from_stash (y.servers j)) y (λ k q i. 0) (λ k q. stash-Sends k q (y.servers j))
          (λ k q i. stash-Holds k q i (y.servers j)) (λ k q i l. no_extra j y h k q i l))
  | inr f ↦ rw (consensus_step, f) h
]
step-Once (on_failure j) y h = elim (Bool-cases (ltb j y.size && (y.servers j).stash_size == 0)) [
  | inl f ↦
      rw (consensus_step, f)
        (act-Once j (failure (y.servers j)) y (λ k q i. 0) (λ k q. failure-Sends k q (y.servers j))
          (λ k q i. failure-Holds k q i (y.servers j)) (λ k q i l. no_extra j y h k q i l))
  | inr f ↦ rw (consensus_step, f) h
]

pub run-Once : (es : List ConsensusEvent) (y : System) → Once y → Once (consensus_run es y)
unfolding consensus_run
run-Once [] y h = h
run-Once (e ∷ es) y h = run-Once es (consensus_step e y) (step-Once e y h)

may_send_le : (k : Counted) (q : ℕ) (s : Server) → may_send k q s ≤ 1
unfolding may_send
may_send_le k_prepare q s = ground arith
may_send_le k_ack q s = ground arith

-- A leader counts no sender twice.
pub one_sender :
    (k : Counted) (y : System) (l i : ℕ)
    → Once y
    → counts_now k (y.servers l).phase ≡ true
    → occurrences i (y.servers l).counted ≤ 1
unfolding held Once
one_sender k y l i h e = ground (
  arith,
  same_server (y.servers l).round,
  e,
  may_send_le k (y.servers l).round (y.servers i),
  h k (y.servers l).round i l,
)

pub pair_le :
    (k : Counted) (q i l : ℕ) (y : System)
    → Once y
    → flying k q i l y.in_flight + held k q i (y.servers l) ≤ 1
unfolding Once
pair_le k q i l y h = omega (arith, h k q i l, may_send_le k q (y.servers i))

-- A message on its way, together with what its server holds.
pub flying_le :
    (k : Counted) (q i p j : ℕ) (m : Message) (y : System)
    → get_elem? y.in_flight p ≡ some (to_server j, m)
    → Once y
    → one_if (is_one k q i m) + held k q i (y.servers j) ≤ 1
unfolding fly_one
flying_le k q i p j m y e h = ground (
  arith,
  (==_iff j j).1 refl,
  pair_le k q i j y h,
  flying-remove_at k q i j y.in_flight p (to_server j, m) e,
)
