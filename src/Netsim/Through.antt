-- ===== src/Netsim/Through.antt =====
-- A message that is not lost, on a connected channel of pset3/netsim.hh with nothing on the way.
use cs2620_s26_psets.Base.{ℕ, ◌≡◌, refl, false, some, List, [], ◌∷◌, ◌++◌, arith}
use cs2620_s26_psets.Netsim.Fifo.{pending, payloads, carried, IsConnected}
use cs2620_s26_psets.Netsim.Defs.{
  link_receive, Link, link_deliver, link_send, receive, receive_with_id, deliver, send, enqueue,
}

module _ {ℓ} {A : Type ℓ} where
  payloads_nil {κ} : {B : Type κ} (ms : List (A × B)) → payloads ms ≡ [] → ms ≡ []
  unfolding payloads
  payloads_nil [] e = refl
  payloads_nil (m ∷ ms) e = cc

  carried_nil : (ms : List (ℕ × A)) → carried ms ≡ [] → ms ≡ []
  unfolding carried
  carried_nil [] e = refl
  carried_nil (m ∷ ms) e = cc

  append_nil_parts : (xs ys : List A) → xs ++ ys ≡ [] → (xs ≡ []) × (ys ≡ [])
  append_nil_parts [] ys e = (refl, e)
  append_nil_parts (x ∷ xs) ys e = cc

  pending_nil : (l : Link A) → pending l ≡ [] → (l.port.messageq ≡ []) × (l.channel.in_flight ≡ [])
  unfolding pending
  pending_nil l e =
      let (q, f) = append_nil_parts (payloads l.port.messageq) (carried l.channel.in_flight) e in
      (payloads_nil l.port.messageq q, carried_nil l.channel.in_flight f)

  -- The link once the message is received; its channel is as it was.
  pub through :
      (l : Link A) (m : A)
      → IsConnected l
      → pending l ≡ []
      → link_receive (link_deliver (link_send false m l)) ≡ some (m, l)
  unfolding link_receive link_deliver link_send receive receive_with_id deliver send enqueue
  through l m c e = ground (arith, c.there, pending_nil l e)
