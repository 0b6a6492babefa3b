-- ===== src/Consensus/Counts.antt =====
-- What a leader of pset2/ctconsensus.cc has counted.
use mathlib.Core.Path.{subst}
use cs2620_s26_psets.Base.{
  ℕ, true, false, [], ◌∷◌, get_elem?, List, Bool, Option-cases, Bool-cases, length, ◌≡◌, ltb, ◌==◌,
  inl, if◌then◌else◌, ◌≤◌, inr, leb, refl, ◌++◌, ◌+◌, arith, ◌/◌, ◌-◌, ◌&&◌,
}
use cs2620_s26_psets.Consensus.Msgs.{
  to_server, to_nancy, Sent, Message, MessageType, m_prepare, m_propose, m_ack,
}
use cs2620_s26_psets.Consensus.Net.{
  on_message, on_stash, on_failure, consensus_step, System, set_server, consensus_run, start_system,
  receive_message, new_server, ConsensusEvent, remove_at,
}
use cs2620_s26_psets.Consensus.Server.{
  await_prepare, await_propose, await_ack, finished, take_decide, Server, start_round, take_prepare,
  take_ack, acknowledge_round, take_propose, Phase, from_network, finish, await, put_aside, advance,
  handle_message, leader, sort_message, from_stash, failure,
}
use cs2620_s26_psets.Consensus.OnceNet.{Once, run-Once, one_sender}
use cs2620_s26_psets.Consensus.OnceStart.{start-Once}
use cs2620_s26_psets.Bytes.{Bytes}
use cs2620_s26_psets.Consensus.Once.{occurrences, k_prepare, counts_now, k_ack, Counted}
use cs2620_s26_psets.Consensus.Cases.{handle-elim, stash-elim, sort-elim, failure-elim}

-- As many senders as the phase says.
abbrev CountFor : List ℕ → Phase → Type 0
CountFor ids (await_prepare k) = length ids ≡ k
CountFor ids await_propose = Unit
CountFor ids (await_ack a t) = (length ids ≡ a) × (a ≤ t)
CountFor ids finished = Unit

abbrev Counts : Server × List Sent → Type 0
Counts r = CountFor r.0.counted r.0.phase

start_round-Counts : (s : Server) → Counts (start_round s)
unfolding start_round await
start_round-Counts s = go (s.id == leader s)
  where
    go : (b : Bool) → CountFor [] (if b then await_prepare 0 else await_propose)
    go true = refl
    go false = tt

acknowledge-Counts : (ack : Bool) (s : Server) → Counts (acknowledge_round ack s)
unfolding acknowledge_round await advance
acknowledge-Counts ack s = elim (Bool-cases (s.id == leader s)) [
  | inl e ↦ rw (acknowledge_round, e) (refl, omega arith)
  | inr e ↦
      rw (acknowledge_round, e)
        (start_round-Counts (record s {
          round = s.round + 1;
          voted = if ack then s.round ∷ s.voted else s.voted;
          counted = [];
        }))
]

sort-Counts :
    (mt : MessageType) (take : Message → Server → Server × List Sent) (m : Message) (s : Server)
    → CountFor s.counted s.phase
    → Counts (take m s)
    → Counts (sort_message mt take m s)
unfolding take_decide finish put_aside
sort-Counts mt take m s h t =
    sort-elim Counts mt take m s (λ e. tt) (same (leb s.round m.round)) (λ e f. t)
  where
    same : (b : Bool) → Counts ((if b then record s { stash = s.stash ++ (m ∷ []) } else s), [])
    same true = h
    same false = h

take_prepare-Counts :
    (k : ℕ) (m : Message) (s : Server) → length s.counted ≡ k → Counts (take_prepare k m s)
unfolding take_prepare await
take_prepare-Counts k m s h = elim (Bool-cases (ltb s.color_round m.color_round)) [
  | inl u ↦ elim (Bool-cases (leb (k + 1) (s.n / 2))) [
    | inl v ↦ rw (take_prepare, u, v) (omega (arith, h))
    | inr v ↦ rw (take_prepare, u, v) tt
  ]
  | inr u ↦ elim (Bool-cases (leb (k + 1) (s.n / 2))) [
    | inl v ↦ rw (take_prepare, u, v) (omega (arith, h))
    | inr v ↦ rw (take_prepare, u, v) tt
  ]
]

take_ack-Counts :
    (a t : ℕ) (m : Message) (s : Server)
    → (length s.counted ≡ a) × (a ≤ t)
    → Counts (take_ack a t m s)
unfolding take_ack await finish advance
take_ack-Counts a t m s (h, k) = elim (Bool-cases (leb (t + 1) (s.n / 2))) [
  | inl u ↦ elim (Bool-cases m.ack) [
    | inl v ↦ rw (take_ack, u, v) (omega (arith, h), omega (arith, k))
    | inr v ↦ rw (take_ack, u, v) (h, omega (arith, k))
  ]
  | inr u ↦ elim (Bool-cases (ltb (s.n / 2) (if m.ack then a + 1 else a))) [
    | inl v ↦ rw (take_ack, u, v) tt
    | inr v ↦ rw (take_ack, u, v) (start_round-Counts (record s { round = s.round + 1 }))
  ]
]

handle-Counts : (m : Message) (s : Server) → Counts (s, []) → Counts (handle_message m s)
unfolding take_propose
handle-Counts m s h =
    handle-elim Counts m s
      (λ k e.
        sort-Counts m_prepare (take_prepare k) m s h
          (take_prepare-Counts k m s (subst (λ p. CountFor s.counted p) e h)))
      (λ e.
        sort-Counts m_propose take_propose m s h
          (acknowledge-Counts true (record s { color = m.color; color_round = s.round })))
      (λ a t e.
        sort-Counts m_ack (take_ack a t) m s h
          (take_ack-Counts a t m s (subst (λ p. CountFor s.counted p) e h)))
      h

-- In a system, every server.
AllCount : System → Type 0
AllCount y = (j : ℕ) → Counts (y.servers j, [])

set_server-AllCount :
    (j : ℕ) (r : Server × List Sent) (y : System)
    → AllCount y
    → Counts r
    → AllCount (set_server j r y)
unfolding AllCount set_server
set_server-AllCount j r y h c i = elim (Bool-cases (i == j)) [ inl e ↦ rw e c | inr e ↦ rw e (h i) ]

receive-AllCount : (p : ℕ) (o : Sent) (y : System) → AllCount y → AllCount (receive_message p o y)
unfolding receive_message from_network AllCount
receive-AllCount p (to_nancy, m) y h = h
receive-AllCount p (to_server j, m) y h = elim (Bool-cases ((y.servers j).stash_size == 0)) [
  | inl f ↦
      rw (receive_message, f)
        (set_server-AllCount j (handle_message m (y.servers j))
          (record y { in_flight = remove_at y.in_flight p }) h
          (handle-Counts m (y.servers j) (h j)))
  | inr f ↦ rw (receive_message, f) h
]

step-AllCount : (e : ConsensusEvent) (y : System) → AllCount y → AllCount (consensus_step e y)
unfolding consensus_step AllCount
step-AllCount (on_message p) y h = elim (Option-cases (get_elem? y.in_flight p)) [
  | inl f ↦ rw (consensus_step, f) h
  | inr (o, f) ↦ rw (consensus_step, f) (receive-AllCount p o y h)
]
step-AllCount (on_stash j) y h = elim (Bool-cases (ltb j y.size)) [
  | inl f ↦
      rw (consensus_step, f)
        (set_server-AllCount j (from_stash (y.servers j)) y h (
          stash-elim Counts (y.servers j) (h j) (λ m rest e.
            handle-Counts m
              (record (y.servers j) { stash = rest; stash_size = (y.servers j).stash_size - 1 })
              (h j))))
  | inr f ↦ rw (consensus_step, f) h
]
step-AllCount (on_failure j) y h =
    elim (Bool-cases (ltb j y.size && (y.servers j).stash_size == 0)) [
      | inl f ↦
          rw (consensus_step, f)
            (set_server-AllCount j (failure (y.servers j)) y h (
              failure-elim Counts (y.servers j) (λ e. acknowledge-Counts false (y.servers j))
                (h j)))
      | inr f ↦ rw (consensus_step, f) h
    ]

run-AllCount : (es : List ConsensusEvent) (y : System) → AllCount y → AllCount (consensus_run es y)
unfolding consensus_run
run-AllCount [] y h = h
run-AllCount (e ∷ es) y h = run-AllCount es (consensus_step e y) (step-AllCount e y h)

start-AllCount : (n : ℕ) (colors : ℕ → Bytes) → AllCount (start_system n colors)
unfolding AllCount start_system new_server
start-AllCount n colors j = start_round-Counts _

-- `received` of phase 2, `success` of phase 5.
abbrev pub number_counted : Phase → ℕ
number_counted (await_prepare received) = received
number_counted await_propose = 0
number_counted (await_ack success total) = success
number_counted finished = 0

number_lem :
    (k : Counted) (ids : List ℕ) (p : Phase)
    → CountFor ids p
    → counts_now k p ≡ true
    → length ids ≡ number_counted p
number_lem k_prepare ids (await_prepare received) h e = h
number_lem k_prepare ids await_propose h e = cc
number_lem k_prepare ids (await_ack success total) h e = cc
number_lem k_prepare ids finished h e = cc
number_lem k_ack ids (await_prepare received) h e = cc
number_lem k_ack ids await_propose h e = cc
number_lem k_ack ids (await_ack success total) h e = h.0
number_lem k_ack ids finished h e = cc

-- Whatever the number of servers, their colors and the order of the events: while a server waits
-- for PREPAREs (k_prepare) or for ACKs (k_ack), its counter, `received` or `success`, is the number
-- of servers that it has counted, and none of these is counted twice.
pub counts_once :
    (n : ℕ) (colors : ℕ → Bytes) (es : List ConsensusEvent) (l : ℕ) (k : Counted)
    → counts_now k ((consensus_run es (start_system n colors)).servers l).phase ≡ true
    → let s = (consensus_run es (start_system n colors)).servers l in
      (length s.counted ≡ number_counted s.phase) × ((i : ℕ) → occurrences i s.counted ≤ 1)
unfolding AllCount
counts_once n colors es l k e =
    let y = consensus_run es (start_system n colors) in
    let c : AllCount y = run-AllCount es (start_system n colors) (start-AllCount n colors) in
    let o : Once y = run-Once es (start_system n colors) (start-Once n colors) in
    (number_lem k (y.servers l).counted (y.servers l).phase (c l) e, (λ i. one_sender k y l i o e))
