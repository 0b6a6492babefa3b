-- ===== src/Consensus/OnceHeld.antt =====
-- A server of pset2/ctconsensus.cc holds no PREPARE and no ACK more often than it was given it.
use cs2620_s26_psets.Base.{
  ℕ, ◌+◌, ◌-◌, ◌/◌, ◌≤◌, ◌≡◌, refl, ap, inl, inr, Bool, true, false, ◌&&◌, List, [], ◌∷◌, arith,
  ltb, leb, ◌==◌, if◌then◌else◌, Bool-cases,
}
use cs2620_s26_psets.Consensus.Msgs.{Message, Sent, m_prepare, m_ack, m_propose, same_type}
use cs2620_s26_psets.Consensus.Server.{
  Server, await_prepare, await_ack, finished, leader, acknowledge_round, take_prepare, take_propose,
  take_ack, put_aside, take_decide, handle_message, from_stash, failure,
}
use cs2620_s26_psets.Consensus.Once.{
  Counted, k_prepare, k_ack, type_of, one_if, is_one, in_list, occurrences, counts_now, held,
  in_list-append,
}
use cs2620_s26_psets.Consensus.Cases.{sort-elim, handle-elim, failure-elim, stash-elim}

abbrev pub Holds : Counted → ℕ → ℕ → Server → ℕ → Server × List Sent → Type 0
Holds k q i s extra r = held k q i r.0 ≤ held k q i s + extra

-- A server that counts nothing.
restart-Holds :
    (k : Counted) (q i extra : ℕ) (s s' : Server)
    → s'.stash ≡ s.stash
    → s'.counted ≡ []
    → held k q i s' ≤ held k q i s + extra
unfolding held occurrences
restart-Holds k q i extra s s' e f = rw (e, f) (nothing (counts_now k s'.phase && s'.round == q))
  where
    nothing : (b : Bool) → in_list k q i s.stash + (if b then 0 else 0) ≤ held k q i s + extra
    nothing true = omega arith
    nothing false = omega arith

no_count : (k : Counted) → counts_now k finished ≡ false
no_count k_prepare = refl
no_count k_ack = refl

done-Holds :
    (k : Counted) (q i extra : ℕ) (s s' : Server)
    → s'.stash ≡ s.stash
    → s'.phase ≡ finished
    → held k q i s' ≤ held k q i s + extra
unfolding held
done-Holds k q i extra s s' e f = rw (e, f, no_count k) (omega arith)

decide-Holds :
    (k : Counted) (q i extra : ℕ) (m : Message) (s : Server) → Holds k q i s extra (take_decide m s)
unfolding take_decide
decide-Holds k q i extra m s = done-Holds k q i extra s _ refl refl

acknowledge-Holds :
    (k : Counted) (q i extra : ℕ) (ack : Bool) (s : Server)
    → Holds k q i s extra (acknowledge_round ack s)
unfolding acknowledge_round
acknowledge-Holds k q i extra ack s = elim (Bool-cases (s.id == leader s)) [
  | inl e ↦ rw (acknowledge_round, e) (restart-Holds k q i extra s _ refl refl)
  | inr e ↦ rw (acknowledge_round, e) (restart-Holds k q i extra s _ refl refl)
]

-- A server that counts one more message.
count-Holds :
    (k : Counted) (q i : ℕ) (m : Message) (s s' : Server)
    → s'.stash ≡ s.stash
    → s'.round ≡ s.round
    → s'.counted ≡ m.sender ∷ s.counted
    → counts_now k s'.phase ≡ counts_now k s.phase
    → (counts_now k s.phase ≡ true → same_type m.type (type_of k) ≡ true)
    → m.round ≡ s.round
    → held k q i s' ≤ held k q i s + one_if (is_one k q i m)
unfolding held occurrences
count-Holds k q i m s s' e f g h t r = elim (Bool-cases (counts_now k s.phase)) [
  | inl c ↦ rw (e, f, g, h, c, t c, r) (ground arith)
  | inr c ↦ rw (e, f, g, h, c) (omega arith)
]

keep-Holds :
    (k : Counted) (q i extra : ℕ) (s s' : Server)
    → s'.stash ≡ s.stash
    → s'.round ≡ s.round
    → s'.counted ≡ s.counted
    → counts_now k s'.phase ≡ counts_now k s.phase
    → held k q i s' ≤ held k q i s + extra
unfolding held
keep-Holds k q i extra s s' e f g h = rw (e, f, g, h) (omega arith)

now_prepare :
    (k : Counted) (c : ℕ) (s : Server)
    → s.phase ≡ await_prepare c
    → counts_now k (await_prepare (c + 1)) ≡ counts_now k s.phase
now_prepare k_prepare c s p = rw p refl
now_prepare k_ack c s p = rw p refl

now_ack :
    (k : Counted) (a a' t : ℕ) (s : Server)
    → s.phase ≡ await_ack a t
    → counts_now k (await_ack a' (t + 1)) ≡ counts_now k s.phase
now_ack k_prepare a a' t s p = rw p refl
now_ack k_ack a a' t s p = rw p refl

counts_prepare :
    (k : Counted) (c : ℕ) (m : Message) (s : Server)
    → s.phase ≡ await_prepare c
    → same_type m.type m_prepare ≡ true
    → counts_now k s.phase ≡ true
    → same_type m.type (type_of k) ≡ true
counts_prepare k_prepare c m s p e n = e
counts_prepare k_ack c m s p e n = absurd (cc (rw p at n))

counts_ack :
    (k : Counted) (a t : ℕ) (m : Message) (s : Server)
    → s.phase ≡ await_ack a t
    → same_type m.type m_ack ≡ true
    → counts_now k s.phase ≡ true
    → same_type m.type (type_of k) ≡ true
counts_ack k_prepare a t m s p e n = absurd (cc (rw p at n))
counts_ack k_ack a t m s p e n = e

prepare-Holds :
    (k : Counted) (q i c : ℕ) (m : Message) (s : Server)
    → s.phase ≡ await_prepare c
    → same_type m.type m_prepare ≡ true
    → m.round ≡ s.round
    → Holds k q i s (one_if (is_one k q i m)) (take_prepare c m s)
unfolding take_prepare
prepare-Holds k q i c m s p e f = elim (Bool-cases (ltb s.color_round m.color_round)) [
  | inl u ↦ elim (Bool-cases (leb (c + 1) (s.n / 2))) [
    | inl v ↦
        rw (take_prepare, u, v)
          (count-Holds k q i m s _ refl refl refl (now_prepare k c s p) (counts_prepare k c m s p e)
            f)
    | inr v ↦ rw (take_prepare, u, v) (restart-Holds k q i _ s _ refl refl)
  ]
  | inr u ↦ elim (Bool-cases (leb (c + 1) (s.n / 2))) [
    | inl v ↦
        rw (take_prepare, u, v)
          (count-Holds k q i m s _ refl refl refl (now_prepare k c s p) (counts_prepare k c m s p e)
            f)
    | inr v ↦ rw (take_prepare, u, v) (restart-Holds k q i _ s _ refl refl)
  ]
]

ack-Holds :
    (k : Counted) (q i a t : ℕ) (m : Message) (s : Server)
    → s.phase ≡ await_ack a t
    → same_type m.type m_ack ≡ true
    → m.round ≡ s.round
    → Holds k q i s (one_if (is_one k q i m)) (take_ack a t m s)
unfolding take_ack
ack-Holds k q i a t m s p e f = elim (Bool-cases (leb (t + 1) (s.n / 2))) [
  | inl u ↦ elim (Bool-cases m.ack) [
    | inl v ↦
        rw (take_ack, u, v)
          (count-Holds k q i m s _ refl refl refl (now_ack k a (a + 1) t s p)
            (counts_ack k a t m s p e) f)
    | inr v ↦ rw (take_ack, u, v) (keep-Holds k q i _ s _ refl refl refl (now_ack k a a t s p))
  ]
  | inr u ↦ elim (Bool-cases (ltb (s.n / 2) (if m.ack then a + 1 else a))) [
    | inl v ↦ rw (take_ack, u, v) (done-Holds k q i _ s _ refl refl)
    | inr v ↦ rw (take_ack, u, v) (restart-Holds k q i _ s _ refl refl)
  ]
]

aside-Holds :
    (k : Counted) (q i : ℕ) (m : Message) (s : Server)
    → Holds k q i s (one_if (is_one k q i m)) (put_aside m s, [])
unfolding put_aside held
aside-Holds k q i m s = elim (Bool-cases (leb s.round m.round)) [
  | inl e ↦ rw (put_aside, e) (omega (arith, in_list-append k q i s.stash m))
  | inr e ↦ rw (put_aside, e) (omega arith)
]

propose-Holds :
    (k : Counted) (q i extra : ℕ) (m : Message) (s : Server)
    → Holds k q i s extra (take_propose m s)
unfolding take_propose held
propose-Holds k q i extra m s =
    acknowledge-Holds k q i extra true (record s { color = m.color; color_round = s.round })

pub handle-Holds :
    (k : Counted) (q i : ℕ) (m : Message) (s : Server)
    → Holds k q i s (one_if (is_one k q i m)) (handle_message m s)
handle-Holds k q i m s =
    let P : Server × List Sent → Type 0 = λ r. Holds k q i s (one_if (is_one k q i m)) r in
    let aside = aside-Holds k q i m s in
    let decide = decide-Holds k q i (one_if (is_one k q i m)) m s in
    handle-elim P m s
      (λ c e.
        sort-elim P m_prepare (take_prepare c) m s (λ z. decide) aside
          (prepare-Holds k q i c m s e))
      (λ e.
        sort-elim P m_propose take_propose m s (λ z. decide) aside
          (λ f g. propose-Holds k q i (one_if (is_one k q i m)) m s))
      (λ a t e.
        sort-elim P m_ack (take_ack a t) m s (λ z. decide) aside (ack-Holds k q i a t m s e))
      (omega arith)

pub failure-Holds : (k : Counted) (q i : ℕ) (s : Server) → Holds k q i s 0 (failure s)
failure-Holds k q i s =
    failure-elim (λ r. Holds k q i s 0 r) s (λ e. acknowledge-Holds k q i 0 false s) (omega arith)

unstash :
    (k : Counted) (q i : ℕ) (m : Message) (rest : List Message) (s : Server)
    → s.stash ≡ m ∷ rest
    → held k q i (record s { stash = rest; stash_size = s.stash_size - 1 })
        + one_if (is_one k q i m)
      ≡ held k q i s
unfolding held in_list
unstash k q i m rest s e = omega (arith, ap (λ ms. in_list k q i ms) e)

pub stash-Holds : (k : Counted) (q i : ℕ) (s : Server) → Holds k q i s 0 (from_stash s)
stash-Holds k q i s =
    stash-elim (λ r. Holds k q i s 0 r) s (omega arith)
      (λ m rest e. omega (
        arith,
        handle-Holds k q i m (record s { stash = rest; stash_size = s.stash_size - 1 }),
        unstash k q i m rest s e,
      ))
