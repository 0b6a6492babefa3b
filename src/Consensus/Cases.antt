-- ===== src/Consensus/Cases.antt =====
-- Case analysis of a server's steps, pset2/ctconsensus.cc.
use cs2620_s26_psets.Base.{
  ℕ, ◌-◌, ◌≡◌, refl, inl, inr, Bool, true, false, List, [], ◌∷◌, ◌==◌, if◌then◌else◌, Bool-cases,
  ==_iff,
}
use cs2620_s26_psets.Consensus.Msgs.{
  Message, MessageType, Sent, m_prepare, m_ack, m_propose, same_type, is_decide,
}
use cs2620_s26_psets.Consensus.Server.{
  Server, Phase, await_prepare, await_propose, await_ack, finished, acknowledge_round, take_prepare,
  take_propose, take_ack, put_aside, take_decide, sort_message, handle_message, from_stash, failure,
}

module _ {ℓ} (P : Server × List Sent → Type ℓ) where
  pub sort-elim :
      (mt : MessageType) (take : Message → Server → Server × List Sent) (m : Message) (s : Server)
      → (is_decide m.type ≡ true → P (take_decide m s))
      → P (put_aside m s, [])
      → (same_type m.type mt ≡ true → m.round ≡ s.round → P (take m s))
      → P (sort_message mt take m s)
  unfolding sort_message
  sort-elim mt take m s d a t = elim (Bool-cases (is_decide m.type)) [
    | inl e ↦ rw (sort_message, e) (d e)
    | inr e ↦ elim (Bool-cases (same_type m.type mt)) [
      | inr f ↦ rw (sort_message, e, f) a
      | inl f ↦ elim (Bool-cases (m.round == s.round)) [
        | inl g ↦ rw (sort_message, e, f, g) (t f ((==_iff m.round s.round).0 g))
        | inr g ↦ rw (sort_message, e, f, g) a
      ]
    ]
  ]

  pub handle-elim :
      (m : Message) (s : Server)
      → ((c : ℕ) → s.phase ≡ await_prepare c → P (sort_message m_prepare (take_prepare c) m s))
      → (s.phase ≡ await_propose → P (sort_message m_propose take_propose m s))
      → ((a t : ℕ) → s.phase ≡ await_ack a t → P (sort_message m_ack (take_ack a t) m s))
      → P (s, [])
      → P (handle_message m s)
  unfolding handle_message
  handle-elim m s p q r f = go s.phase refl
    where
      go :
          (ph : Phase)
          → s.phase ≡ ph
          → P (elim ph as (λ x. Server × List Sent) [
            | await_prepare received ↦ sort_message m_prepare (take_prepare received) m s
            | await_propose ↦ sort_message m_propose take_propose m s
            | await_ack success total ↦ sort_message m_ack (take_ack success total) m s
            | finished ↦ (s, [])
          ])
      go (await_prepare c) e = p c e
      go await_propose e = q e
      go (await_ack a t) e = r a t e
      go finished e = f

  pub failure-elim :
      (s : Server)
      → (s.phase ≡ await_propose → P (acknowledge_round false s))
      → P (s, [])
      → P (failure s)
  unfolding failure
  failure-elim s q f = go s.phase refl
    where
      go :
          (ph : Phase)
          → s.phase ≡ ph
          → P (elim ph as (λ x. Server × List Sent) [
            | await_prepare received ↦ (s, [])
            | await_propose ↦ acknowledge_round false s
            | await_ack success total ↦ (s, [])
            | finished ↦ (s, [])
          ])
      go (await_prepare c) e = f
      go await_propose e = q e
      go (await_ack a t) e = f
      go finished e = f

  pub stash-elim :
      (s : Server)
      → P (s, [])
      → ((m : Message) (rest : List Message)
          → s.stash ≡ m ∷ rest
          → P (handle_message m (record s { stash = rest; stash_size = s.stash_size - 1 })))
      → P (from_stash s)
  unfolding from_stash
  stash-elim s f t = go s.stash refl
    where
      choose : (b : Bool) (r : Server × List Sent) → P r → P (if b then (s, []) else r)
      choose true r h = f
      choose false r h = h

      go :
          (ms : List Message)
          → s.stash ≡ ms
          → P (elim ms as (λ x. Server × List Sent) [
            | [] ↦ (s, [])
            | m ∷ rest ↦
                (let result =
                    handle_message m (record s { stash = rest; stash_size = s.stash_size - 1 }) in
                  if s.stash_size == 0 then (s, []) else result)
          ])
      go [] e = f
      go (m ∷ rest) e =
          choose (s.stash_size == 0)
            (handle_message m (record s { stash = rest; stash_size = s.stash_size - 1 }))
            (t m rest e)
