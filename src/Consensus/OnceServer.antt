-- ===== src/Consensus/OnceServer.antt =====
-- A server of pset2/ctconsensus.cc sends each PREPARE and each ACK once, and holds no more of them
-- than it is given.
use cs2620_s26_psets.Base.{
  ℕ, zero, suc, ◌+◌, ◌/◌, ◌%◌, ◌≤◌, ◌≡◌, refl, inl, inr, Bool, true, false, List, [], ◌∷◌, arith,
  ltb, leb, ◌==◌, if◌then◌else◌, Bool-cases, ◌-◌,
}
use cs2620_s26_psets.Consensus.Msgs.{
  Message, MessageType, Sent, m_propose, same_type, propose_message, decide_message, Destination,
  m_prepare, m_ack,
}
use cs2620_s26_psets.Consensus.Server.{
  Server, await_prepare, await_propose, await_ack, await, to_all, to_others, finish, leader,
  advance, acknowledge_round, take_prepare, take_ack, handle_message, failure, put_aside,
  take_decide, take_propose, from_stash,
}
use cs2620_s26_psets.Consensus.Cases.{sort-elim, handle-elim, failure-elim, stash-elim}
use cs2620_s26_psets.Consensus.Once.{
  Counted, k_prepare, k_ack, type_of, held, has_acked, may_send, outgoing, outgoing-append,
}

outgoing-to_all :
    (k : Counted) (q count : ℕ) (m : Message)
    → same_type m.type (type_of k) ≡ false
    → outgoing k q (to_all count m) ≡ 0
unfolding outgoing to_all
outgoing-to_all k q zero m e = refl
outgoing-to_all k q (suc count) m e =
    rw
      (
        outgoing-append k q (to_all count m) ((Destination.to_server count, m) ∷ []),
        outgoing-to_all k q count m e,
        e,
      )
      refl

outgoing-to_others :
    (k : Counted) (q id count : ℕ) (m : Message)
    → same_type m.type (type_of k) ≡ false
    → outgoing k q (to_others id count m) ≡ 0
unfolding outgoing to_others
outgoing-to_others k q id zero m e = refl
outgoing-to_others k q id (suc count) m e = elim (Bool-cases (count == id)) [
  | inl f ↦ rw (to_others, f) (outgoing-to_others k q id count m e)
  | inr f ↦
      rw
        (
          to_others,
          f,
          outgoing-append k q (to_others id count m) ((Destination.to_server count, m) ∷ []),
          outgoing-to_others k q id count m e,
          e,
        )
        refl
]

not_propose : (k : Counted) → same_type m_propose (type_of k) ≡ false
not_propose k_prepare = refl
not_propose k_ack = refl

not_decide : (k : Counted) → same_type MessageType.m_decide (type_of k) ≡ false
not_decide k_prepare = refl
not_decide k_ack = refl

-- What one step of a server does: `extra` says what it takes from the network or the stash.
abbrev pub Sends : Counted → ℕ → Server → Server × List Sent → Type 0
Sends k q s r = outgoing k q r.1 + may_send k q s ≤ may_send k q r.0

abbrev pub Holds : Counted → ℕ → ℕ → Server → ℕ → Server × List Sent → Type 0
Holds k q i s extra r = held k q i r.0 ≤ held k q i s + extra

finish-Sends : (k : Counted) (q : ℕ) (s : Server) → Sends k q s (finish s)
unfolding finish outgoing may_send
finish-Sends k_prepare q s =
    omega (arith, outgoing-to_others k_prepare q s.id s.n (decide_message s.color) refl)
finish-Sends k_ack q s =
    ground (arith, outgoing-to_others k_ack q s.id s.n (decide_message s.color) refl)

waits_first : (b : Bool) → has_acked (if b then await_prepare 0 else await_propose) ≡ false
waits_first true = refl
waits_first false = refl

advance-Sends : (k : Counted) (q : ℕ) (s : Server) → Sends k q s (advance s)
unfolding advance outgoing may_send
advance-Sends k_prepare q s = ground arith
advance-Sends k_ack q s = ground (arith, waits_first (s.id == (s.round + 1) % s.n))

acknowledge-Sends :
    (k : Counted) (q : ℕ) (ack : Bool) (s : Server)
    → has_acked s.phase ≡ false
    → Sends k q s (acknowledge_round ack s)
unfolding acknowledge_round outgoing may_send
acknowledge-Sends k_prepare q ack s h = elim (Bool-cases (s.id == leader s)) [
  | inl e ↦ rw (acknowledge_round, e) (ground arith)
  | inr e ↦ rw (acknowledge_round, e) (ground arith)
]
acknowledge-Sends k_ack q ack s h = elim (Bool-cases (s.id == leader s)) [
  | inl e ↦ rw (acknowledge_round, e) (ground (arith, h))
  | inr e ↦ rw (acknowledge_round, e) (ground (arith, h, waits_first (s.id == (s.round + 1) % s.n)))
]

propose_to_all :
    (k : Counted) (q : ℕ) (s : Server)
    → outgoing k q (to_all s.n (propose_message s.round s.color)) ≡ 0
propose_to_all k q s = outgoing-to_all k q s.n (propose_message s.round s.color) (not_propose k)

-- A PREPARE only adds to what the leader knows, until it proposes.
prepared :
    (k : Counted) (q c : ℕ) (m : Message) (s : Server)
    → (outgoing k q (take_prepare c m s).1 ≡ 0)
      × ((take_prepare c m s).0.round ≡ s.round)
      × (has_acked (take_prepare c m s).0.phase ≡ false)
unfolding take_prepare outgoing
prepared k q c m s = elim (Bool-cases (ltb s.color_round m.color_round)) [
  | inl e ↦ elim (Bool-cases (leb (c + 1) (s.n / 2))) [
    | inl f ↦ rw (take_prepare, e, f) (refl, refl, refl)
    | inr f ↦
        rw (take_prepare, e, f)
          (
            propose_to_all k q (record s { color = m.color; color_round = m.color_round }),
            refl,
            refl,
          )
  ]
  | inr e ↦ elim (Bool-cases (leb (c + 1) (s.n / 2))) [
    | inl f ↦ rw (take_prepare, e, f) (refl, refl, refl)
    | inr f ↦ rw (take_prepare, e, f) (propose_to_all k q s, refl, refl)
  ]
]

prepare-Sends :
    (k : Counted) (q c : ℕ) (m : Message) (s : Server)
    → has_acked s.phase ≡ false
    → Sends k q s (take_prepare c m s)
unfolding may_send
prepare-Sends k_prepare q c m s h =
    let p = prepared k_prepare q c m s in rw (p.0, p.1) (omega arith)
prepare-Sends k_ack q c m s h =
    let p = prepared k_ack q c m s in rw (p.0, p.1, p.2, h) (omega arith)

ack-Sends :
    (k : Counted) (q a t : ℕ) (m : Message) (s : Server)
    → s.phase ≡ await_ack a t
    → Sends k q s (take_ack a t m s)
unfolding take_ack may_send outgoing
ack-Sends k q a t m s h = elim (Bool-cases (leb (t + 1) (s.n / 2))) [
  | inl e ↦ rw (take_ack, e) (still k)
  | inr e ↦ elim (Bool-cases (ltb (s.n / 2) (if m.ack then a + 1 else a))) [
    | inl f ↦ rw (take_ack, e, f) (decided k)
    | inr f ↦ rw (take_ack, e, f) (advance-Sends k q s)
  ]
]
  where
    still :
        (k : Counted)
        → let s' =
            await
              (await_ack (if m.ack then a + 1 else a) (t + 1))
              (record s { counted = if m.ack then m.sender ∷ s.counted else s.counted }) in
          0 + may_send k q s ≤ may_send k q s'
    still k_prepare = ground arith
    still k_ack = ground (arith, h)

    decided : (k : Counted) → Sends k q s (finish (record s { decided = true }))
    decided k_prepare = finish-Sends k_prepare q (record s { decided = true })
    decided k_ack = finish-Sends k_ack q (record s { decided = true })

put_aside-same :
    (m : Message) (s : Server)
    → ((put_aside m s).round ≡ s.round) × ((put_aside m s).phase ≡ s.phase)
unfolding put_aside
put_aside-same m s = elim (Bool-cases (leb s.round m.round)) [
  | inl e ↦ rw (put_aside, e) (refl, refl)
  | inr e ↦ rw (put_aside, e) (refl, refl)
]

aside-Sends : (k : Counted) (q : ℕ) (m : Message) (s : Server) → Sends k q s (put_aside m s, [])
unfolding may_send outgoing
aside-Sends k_prepare q m s = rw (put_aside-same m s).0 (omega arith)
aside-Sends k_ack q m s = rw ((put_aside-same m s).0, (put_aside-same m s).1) (omega arith)

decide-Sends : (k : Counted) (q : ℕ) (m : Message) (s : Server) → Sends k q s (take_decide m s)
unfolding take_decide may_send
decide-Sends k_prepare q m s =
    finish-Sends k_prepare q (record s { color = m.color; decided = true })
decide-Sends k_ack q m s = finish-Sends k_ack q (record s { color = m.color; decided = true })

same-Sends : (k : Counted) (q : ℕ) (s : Server) → Sends k q s (s, [])
unfolding outgoing
same-Sends k q s = omega arith

pub propose-Sends :
    (k : Counted) (q : ℕ) (m : Message) (s : Server)
    → has_acked s.phase ≡ false
    → Sends k q s (take_propose m s)
unfolding take_propose may_send
propose-Sends k_prepare q m s h =
    acknowledge-Sends k_prepare q true (record s { color = m.color; color_round = s.round }) h
propose-Sends k_ack q m s h =
    acknowledge-Sends k_ack q true (record s { color = m.color; color_round = s.round }) h

pub handle-Sends :
    (k : Counted) (q : ℕ) (m : Message) (s : Server) → Sends k q s (handle_message m s)
handle-Sends k q m s =
    let P : Server × List Sent → Type 0 = λ r. Sends k q s r in
    handle-elim P m s
      (λ c e.
        sort-elim P m_prepare (take_prepare c) m s (λ z. decide-Sends k q m s) (aside-Sends k q m s)
          (λ f g. prepare-Sends k q c m s (rw e refl)))
      (λ e.
        sort-elim P m_propose take_propose m s (λ z. decide-Sends k q m s) (aside-Sends k q m s)
          (λ f g. propose-Sends k q m s (rw e refl)))
      (λ a t e.
        sort-elim P m_ack (take_ack a t) m s (λ z. decide-Sends k q m s) (aside-Sends k q m s)
          (λ f g. ack-Sends k q a t m s e))
      (same-Sends k q s)

pub failure-Sends : (k : Counted) (q : ℕ) (s : Server) → Sends k q s (failure s)
failure-Sends k q s =
    failure-elim (λ r. Sends k q s r) s (λ e. acknowledge-Sends k q false s (rw e refl))
      (same-Sends k q s)

stash_free :
    (k : Counted) (q : ℕ) (rest : List Message) (s : Server)
    → may_send k q s ≡ may_send k q (record s { stash = rest; stash_size = s.stash_size - 1 })
unfolding may_send
stash_free k_prepare q rest s = refl
stash_free k_ack q rest s = refl

pub stash-Sends : (k : Counted) (q : ℕ) (s : Server) → Sends k q s (from_stash s)
stash-Sends k q s =
    stash-elim (λ r. Sends k q s r) s (same-Sends k q s) (λ m rest e. taken k m rest)
  where
    taken :
        (k : Counted) (m : Message) (rest : List Message)
        → Sends k q s (handle_message m (record s { stash = rest; stash_size = s.stash_size - 1 }))
    taken k m rest =
        rw (← stash_free k q rest s) at
          (handle-Sends k q m (record s { stash = rest; stash_size = s.stash_size - 1 }))
