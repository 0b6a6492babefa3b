-- ===== src/Consensus/Validity.antt =====
-- Where the colors in pset2/ctconsensus.cc come from: servers, stashes and messages.
use mathlib.Core.Path.{subst}
use cs2620_s26_psets.Base.{
  ◌≡◌, refl, ℕ, zero, suc, ◌+◌, ◌/◌, refl, ◌≢◌, inl, inr, Bool, true, List, [], ◌∷◌, ltb, leb, ◌==◌,
  if◌then◌else◌, Bool-cases, All, All-append, false, ◌-◌, arith,
}
use cs2620_s26_psets.Consensus.Msgs.{
  m_prepare, m_propose, to_server, m_ack, Sent, Message, decide_message, ack_message,
  propose_message, MessageType, same_type, is_decide,
}
use cs2620_s26_psets.Consensus.Server.{
  await_ack, await_propose, await_prepare, finish, to_others, Server, start_round, await,
  acknowledge_round, to_all, advance, leader, Phase, put_aside, take_ack, take_prepare,
  take_propose, take_decide, from_stash, from_network, failure, sort_message, handle_message,
}
use cs2620_s26_psets.Bytes.{Bytes}
use cs2620_s26_psets.Consensus.Cases.{handle-elim, stash-elim, sort-elim, failure-elim}

same_type_prepare : (t : MessageType) → same_type t m_prepare ≡ true → t ≢ m_ack
same_type_prepare t e f = ground (arith, e, f)

same_type_propose : (t : MessageType) → same_type t m_propose ≡ true → t ≢ m_ack
same_type_propose t e f = ground (arith, e, f)

is_decide_lem : (t : MessageType) → is_decide t ≡ true → t ≢ m_ack
is_decide_lem t e f = ground (arith, e, f)

module _ {ℓ} (P : Bytes → Type ℓ) where
  -- Every message but an ACK carries a color.
  unfoldable pub IsGood : Message → Type ℓ
  IsGood m = m.type ≢ m_ack → P m.color

  abbrev pub AllGood : List Sent → Type ℓ
  AllGood os = All (λ o. IsGood o.1) os

  pub record IsValid (s : Server) : Type ℓ where
    pub color_valid : P s.color
    pub stash_valid : All IsGood s.stash

  to_all-AllGood : (count : ℕ) (m : Message) → IsGood m → AllGood (to_all count m)
  unfolding to_all
  to_all-AllGood zero m h = tt
  to_all-AllGood (suc count) m h =
      All-append (λ o. IsGood o.1) (to_all count m) ((to_server count, m) ∷ [])
        (to_all-AllGood count m h) (h, tt)

  to_others-AllGood : (id count : ℕ) (m : Message) → IsGood m → AllGood (to_others id count m)
  unfolding to_others
  to_others-AllGood id zero m h = tt
  to_others-AllGood id (suc count) m h = elim (Bool-cases (count == id)) [
    | inl e ↦ rw (to_others, e) (to_others-AllGood id count m h)
    | inr e ↦
        rw (to_others, e)
          (All-append (λ o. IsGood o.1) (to_others id count m) ((to_server count, m) ∷ [])
            (to_others-AllGood id count m h) (h, tt))
  ]

  abbrev pub Result : Server × List Sent → Type ℓ
  Result r = IsValid r.0 × AllGood r.1

  await-IsValid : (p : Phase) (s : Server) → IsValid s → IsValid (await p s)
  unfolding await
  await-IsValid p s h = record { color_valid = h.color_valid; stash_valid = h.stash_valid }

  -- Color and stash are all that matters.
  keep : {s s' : Server} → IsValid s → s'.color ≡ s.color → s'.stash ≡ s.stash → IsValid s'
  keep {s} {s'} h e f = record {
    color_valid = rw e h.color_valid;
    stash_valid = rw f h.stash_valid;
  }

  finish-Result : (s : Server) → IsValid s → Result (finish s)
  unfolding finish IsGood
  finish-Result s h = (
    record { color_valid = h.color_valid; stash_valid = h.stash_valid },
    (
      (λ e. h.color_valid),
      to_others-AllGood s.id s.n (decide_message s.color) (λ e. h.color_valid),
    ),
  )

  pub start_round-Result : (s : Server) → IsValid s → Result (start_round s)
  unfolding start_round IsGood
  start_round-Result s h = (
    await-IsValid (if s.id == leader s then await_prepare 0 else await_propose)
        (record s { counted = [] }) (keep h refl refl),
    ((λ e. h.color_valid), tt),
  )

  advance-Result : (s : Server) → IsValid s → Result (advance s)
  unfolding advance
  advance-Result s h =
      start_round-Result (record s { round = s.round + 1 })
        (record { color_valid = h.color_valid; stash_valid = h.stash_valid })

  ack-IsGood : (round : ℕ) (ack : Bool) → IsGood (ack_message round ack)
  unfolding IsGood
  ack-IsGood round ack f = elim (f refl) [ ]

  acknowledge-Result : (ack : Bool) (s : Server) → IsValid s → Result (acknowledge_round ack s)
  unfolding acknowledge_round IsGood
  acknowledge-Result ack s h = elim (Bool-cases (s.id == leader s)) [
    | inl e ↦
        rw (acknowledge_round, e)
          (await-IsValid (await_ack 0 0) (acked ack s) (u ack s h), (ack-IsGood s.round ack, tt))
    | inr e ↦
        rw (acknowledge_round, e)
          (
            (advance-Result (acked ack s) (u ack s h)).0,
            (ack-IsGood s.round ack, (advance-Result (acked ack s) (u ack s h)).1),
          )
  ]
    where
      acked : Bool → Server → Server
      acked ack s = record s { voted = if ack then s.round ∷ s.voted else s.voted; counted = [] }

      u : (ack : Bool) (s : Server) → IsValid s → IsValid (acked ack s)
      u ack s h = keep h refl refl

  unfoldable maybe_update : Message → Server → Server
  maybe_update m s =
      if ltb s.color_round m.color_round
      then record s { color = m.color; color_round = m.color_round }
      else s

  updated-IsValid : (m : Message) (s : Server) → IsValid s → P m.color → IsValid (maybe_update m s)
  unfolding maybe_update
  updated-IsValid m s h p = elim (Bool-cases (ltb s.color_round m.color_round)) [
    | inl e ↦ rw (maybe_update, e) (record { color_valid = p; stash_valid = h.stash_valid })
    | inr e ↦ rw (maybe_update, e) h
  ]

  take_prepare-Result :
      (k : ℕ) (m : Message) (s : Server) → IsValid s → P m.color → Result (take_prepare k m s)
  unfolding take_prepare IsGood maybe_update await
  take_prepare-Result k m s h p =
      let u : IsValid (maybe_update m s) = updated-IsValid m s h p in
      elim (Bool-cases (leb (k + 1) ((maybe_update m s).n / 2))) [
        | inl e ↦
            rw (take_prepare, e)
              (record { color_valid = u.color_valid; stash_valid = u.stash_valid }, tt)
        | inr e ↦
            rw (take_prepare, e)
              (
                record { color_valid = u.color_valid; stash_valid = u.stash_valid },
                to_all-AllGood (maybe_update m s).n
                    (propose_message (maybe_update m s).round (maybe_update m s).color)
                    (λ f. u.color_valid),
              )
      ]

  take_propose-Result :
      (m : Message) (s : Server) → IsValid s → P m.color → Result (take_propose m s)
  unfolding take_propose
  take_propose-Result m s h p =
      acknowledge-Result true (record s { color = m.color; color_round = s.round })
        (record { color_valid = p; stash_valid = h.stash_valid })

  take_ack-Result : (a t : ℕ) (m : Message) (s : Server) → IsValid s → Result (take_ack a t m s)
  unfolding take_ack await
  take_ack-Result a t m s h = elim (Bool-cases (leb (t + 1) (s.n / 2))) [
    | inl e ↦
        rw (take_ack, e) (record { color_valid = h.color_valid; stash_valid = h.stash_valid }, tt)
    | inr e ↦ elim (Bool-cases (ltb (s.n / 2) (if m.ack then a + 1 else a))) [
      | inl f ↦
          rw (take_ack, e, f)
            (finish-Result (record s { decided = true })
              (record { color_valid = h.color_valid; stash_valid = h.stash_valid }))
      | inr f ↦ rw (take_ack, e, f) (advance-Result s h)
    ]
  ]

  put_aside-IsValid : (m : Message) (s : Server) → IsValid s → IsGood m → IsValid (put_aside m s)
  unfolding put_aside
  put_aside-IsValid m s h g = elim (Bool-cases (leb s.round m.round)) [
    | inl e ↦
        rw (put_aside, e)
          (record {
            color_valid = h.color_valid;
            stash_valid = All-append IsGood s.stash (m ∷ []) h.stash_valid (g, tt);
          })
    | inr e ↦ rw (put_aside, e) h
  ]

  decide-Result : (m : Message) (s : Server) → IsValid s → P m.color → Result (take_decide m s)
  unfolding take_decide
  decide-Result m s h p =
      finish-Result (record s { color = m.color; decided = true })
        (record { color_valid = p; stash_valid = h.stash_valid })

  sort-Result :
      (mt : MessageType) (take : Message → Server → Server × List Sent) (m : Message) (s : Server)
      → IsValid s
      → IsGood m
      → (same_type m.type mt ≡ true → Result (take m s))
      → Result (sort_message mt take m s)
  unfolding IsGood
  sort-Result mt take m s h g t =
      sort-elim Result mt take m s (λ e. decide-Result m s h (g (is_decide_lem m.type e)))
        (put_aside-IsValid m s h g, tt) (λ e f. t e)

  handle-Result : (m : Message) (s : Server) → IsValid s → IsGood m → Result (handle_message m s)
  unfolding IsGood
  handle-Result m s h g =
      handle-elim Result m s
        (λ k e.
          sort-Result m_prepare (take_prepare k) m s h g
            (λ f. take_prepare-Result k m s h (g (same_type_prepare m.type f))))
        (λ e.
          sort-Result m_propose take_propose m s h g
            (λ f. take_propose-Result m s h (g (same_type_propose m.type f))))
        (λ a t e. sort-Result m_ack (take_ack a t) m s h g (λ f. take_ack-Result a t m s h)) (h, tt)

  pub stash-Result : (s : Server) → IsValid s → Result (from_stash s)
  stash-Result s h =
      stash-elim Result s (h, tt)
        (λ m rest e.
          let parts : IsGood m × All IsGood rest = subst (λ ms. All IsGood ms) e h.stash_valid in
          handle-Result m (record s { stash = rest; stash_size = s.stash_size - 1 })
            (record { color_valid = h.color_valid; stash_valid = parts.1 }) parts.0)

  pub network-Result : (m : Message) (s : Server) → IsValid s → IsGood m → Result (from_network m s)
  unfolding from_network
  network-Result m s h g = handle-Result m s h g

  pub failure-Result : (s : Server) → IsValid s → Result (failure s)
  failure-Result s h = failure-elim Result s (λ e. acknowledge-Result false s h) (h, tt)
