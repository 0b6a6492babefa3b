-- ===== src/Consensus/OnceStart.antt =====
-- The same at the start of a run of pset2/ctconsensus.cc, before any message is received.
use cs2620_s26_psets.Base.{
  ℕ, zero, suc, ◌+◌, ◌≤◌, ◌≡◌, refl, sym, inl, inr, Bool, true, false, ◌&&◌, [], arith, ltb, ◌==◌,
  if◌then◌else◌, Bool-cases, ==_iff,
}
use cs2620_s26_psets.Bytes.{Bytes}
use cs2620_s26_psets.Consensus.Server.{start_round, Server}
use cs2620_s26_psets.Consensus.Net.{new_server, from_sender, first_messages, start_system}
use cs2620_s26_psets.Consensus.Once.{
  Counted, k_prepare, k_ack, in_list, occurrences, counts_now, held, may_send, outgoing, flying,
  flying-append,
}
use cs2620_s26_psets.Consensus.OnceNet.{Once, flying-sender}

no_sum : (b : Bool) → 0 + (if b then 0 else 0) ≡ 0
no_sum true = refl
no_sum false = refl

empty-held : (k : Counted) (q i : ℕ) (s : Server) → s.stash ≡ [] → s.counted ≡ [] → held k q i s ≡ 0
unfolding held in_list occurrences
empty-held k q i s e f = rw (e, f) (no_sum (counts_now k s.phase && s.round == q))

new_server-Once :
    (k : Counted) (q i id n : ℕ) (color : Bytes)
    → (outgoing k q (new_server id n color).1 ≤ may_send k q (new_server id n color).0)
      × (held k q i (new_server id n color).0 ≡ 0)
unfolding new_server start_round outgoing may_send
new_server-Once k_prepare q i id n color = (ground arith, empty-held k_prepare q i _ refl refl)
new_server-Once k_ack q i id n color = (ground arith, empty-held k_ack q i _ refl refl)

first_messages-Once :
    (count n : ℕ) (colors : ℕ → Bytes) (k : Counted) (q i l : ℕ)
    → flying k q i l (first_messages count n colors)
      ≤ (if ltb i count then may_send k q (new_server i n (colors i)).0 else 0)
unfolding first_messages flying
first_messages-Once zero n colors k q i l = ground arith
first_messages-Once (suc count) n colors k q i l = elim (Bool-cases (count == i)) [
  | inl e ↦ rw (sym ((==_iff count i).0 e)) (
      ground (
        arith,
        flying-append k q count l (first_messages count n colors)
            (from_sender count (new_server count n (colors count)).1),
        flying-sender k q count l count (new_server count n (colors count)).1,
        first_messages-Once count n colors k q count l,
        (new_server-Once k q count count n (colors count)).0,
      ))
  | inr e ↦ ground (
    arith,
    e,
    flying-append k q i l (first_messages count n colors)
        (from_sender count (new_server count n (colors count)).1),
    flying-sender k q i l count (new_server count n (colors count)).1,
    first_messages-Once count n colors k q i l,
  )
]

pub start-Once : (n : ℕ) (colors : ℕ → Bytes) → Once (start_system n colors)
unfolding Once start_system
start-Once n colors k q i l =
    ground (arith, first_messages-Once n n colors k q i l, (new_server-Once k q i l n (colors l)).1)
