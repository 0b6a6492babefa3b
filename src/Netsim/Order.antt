-- ===== src/Netsim/Order.antt =====
-- Any interleaving of sends, deliveries and receives on one channel of pset3/netsim.hh.
use cs2620_s26_psets.Base.{
  ◌≡◌, sym, ap, ◌∙◌, inl, inr, Bool, true, false, none, some, List, [], ◌∷◌, ◌++◌, Option-cases,
  append_nil, append_assoc,
}
use cs2620_s26_psets.Netsim.Defs.{Link, link_send, link_deliver, link_receive}
use cs2620_s26_psets.Netsim.Fifo.{
  IsConnected, pending, send-IsConnected, pending-lost, pending-send, deliver-IsConnected,
  pending-deliver, pending-receive, receive-IsConnected,
}

module _ {ℓ} (A : Type ℓ) where
  pub data Event : Type ℓ where
    sending : Bool → A → Event
    arriving receiving : Event

module _ {ℓ} {A : Type ℓ} where
  -- What the receiver got, oldest first, and the link afterwards. On an empty queue it waits.
  unfoldable pub transfer : List (Event A) → Link A → List A × Link A
  transfer [] l = ([], l)
  transfer (sending lost m ∷ es) l = transfer es (link_send lost m l)
  transfer (arriving ∷ es) l = transfer es (link_deliver l)
  transfer (receiving ∷ es) l = elim (link_receive l) [
    | none ↦ transfer es l
    | some (m, l') ↦ let (got, end) = transfer es l' in (m ∷ got, end)
  ]

  -- The messages that `send` does not lose.
  unfoldable pub kept : List (Event A) → List A
  kept [] = []
  kept (sending true m ∷ es) = kept es
  kept (sending false m ∷ es) = m ∷ kept es
  kept (arriving ∷ es) = kept es
  kept (receiving ∷ es) = kept es

  -- In any interleaving of sends, deliveries and receives on a connected channel, the messages
  -- received and those still on the way are, in order, those that were on the way and those sent
  -- and not lost.
  pub transfer-pending :
      (es : List (Event A)) (l : Link A)
      → IsConnected l
      → (transfer es l).0 ++ pending (transfer es l).1 ≡ pending l ++ kept es
  unfolding transfer kept
  transfer-pending [] l c = sym (append_nil (pending l))
  transfer-pending (sending true m ∷ es) l c =
      transfer-pending es (link_send true m l) (send-IsConnected l c true m)
      ∙ ap (λ t. t ++ kept es) (pending-lost l c m)
  transfer-pending (sending false m ∷ es) l c =
      transfer-pending es (link_send false m l) (send-IsConnected l c false m)
      ∙ ap (λ t. t ++ kept es) (pending-send l c m)
      ∙ append_assoc (pending l) (m ∷ []) (kept es)
  transfer-pending (arriving ∷ es) l c =
      transfer-pending es (link_deliver l) (deliver-IsConnected l c)
      ∙ ap (λ t. t ++ kept es) (pending-deliver l c)
  transfer-pending (receiving ∷ es) l c = elim (Option-cases (link_receive l)) [
    | inl e ↦ rw (e, transfer) (transfer-pending es l c)
    | inr (r, e) ↦
        rw (e, transfer, pending-receive l r.1 r.0 e)
          (ap (λ t. r.0 ∷ t) (transfer-pending es r.1 (receive-IsConnected l r.1 r.0 e c)))
  ]
