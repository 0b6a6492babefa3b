-- ===== src/Netsim/Fifo.antt =====
-- What is on the way on a channel of pset3/netsim.hh, and what each operation does to it.
use mathlib.Core.Path.{subst}
use cs2620_s26_psets.Base.{
  ℕ, ◌≡◌, refl, ap, inl, inr, Bool, true, false, some, List, [], ◌∷◌, ◌++◌, arith, All, All-append,
  append_assoc, List-cases,
}
use cs2620_s26_psets.Netsim.Defs.{
  Link, connect, link_deliver, deliver, link_send, new_link, send, enqueue, link_receive, receive,
  receive_with_id,
}
use cs2620_s26_psets.Bytes.{Bytes}

module _ {ℓ} {A : Type ℓ} where
  unfoldable pub payloads {κ} : {B : Type κ} → List (A × B) → List A
  payloads [] = []
  payloads (m ∷ ms) = m.0 ∷ payloads ms

  unfoldable pub carried : List (ℕ × A) → List A
  carried [] = []
  carried (m ∷ ms) = m.1 ∷ carried ms

  -- What the port still has to receive, oldest first.
  unfoldable pub pending : Link A → List A
  pending l = payloads l.port.messageq ++ carried l.channel.in_flight

  -- Connected, and no message in flight was sent before that.
  pub record IsConnected (l : Link A) : Type ℓ where
    pub there : (p : ℕ) × (l.channel.destination ≡ some p)
    pub current : All (λ m. m.0 ≡ l.channel.destination_version) l.channel.in_flight

  carried-append : (xs ys : List (ℕ × A)) → carried (xs ++ ys) ≡ carried xs ++ carried ys
  unfolding carried
  carried-append [] ys = refl
  carried-append (x ∷ xs) ys = ap (λ t. x.1 ∷ t) (carried-append xs ys)

  pub payloads-append {κ} :
      {B : Type κ} (xs ys : List (A × B)) → payloads (xs ++ ys) ≡ payloads xs ++ payloads ys
  unfolding payloads
  payloads-append [] ys = refl
  payloads-append (x ∷ xs) ys = ap (λ t. x.0 ∷ t) (payloads-append xs ys)

  pub new_link-IsConnected : (s : Bytes) (p : ℕ) → IsConnected (new_link s p)
  unfolding connect
  new_link-IsConnected s p = record { there = (p, refl); current = tt }

  pub new_link-pending : (s : Bytes) (p : ℕ) → pending (new_link s p) ≡ []
  unfolding pending connect payloads carried
  new_link-pending s p = refl

  module _ (l : Link A) (c : IsConnected l) where
    unfoldable sent : A → Link A
    sent m = record l {
      channel = record l.channel {
        in_flight = l.channel.in_flight ++ ((l.channel.destination_version, m) ∷ []);
      };
    }

    sent_lem : (m : A) → link_send false m l ≡ sent m
    unfolding link_send send sent
    sent_lem m = rw c.there.1 refl

    lost_lem : (m : A) → link_send true m l ≡ l
    unfolding link_send send
    lost_lem m = rw c.there.1 refl

    pub send-IsConnected : (lost : Bool) (m : A) → IsConnected (link_send lost m l)
    unfolding sent
    send-IsConnected true m = rw (lost_lem m) c
    send-IsConnected false m = rw (sent_lem m) (record {
      there = c.there;
      current =
          All-append (λ m. m.0 ≡ l.channel.destination_version) l.channel.in_flight
            ((l.channel.destination_version, m) ∷ []) c.current (refl, tt);
    })

    pub pending-lost : (m : A) → pending (link_send true m l) ≡ pending l
    pending-lost m = rw (lost_lem m) refl

    pub pending-send : (m : A) → pending (link_send false m l) ≡ pending l ++ (m ∷ [])
    unfolding sent pending carried
    pending-send m =
        rw
          (
            sent_lem m,
            carried-append l.channel.in_flight ((l.channel.destination_version, m) ∷ []),
            append_assoc (payloads l.port.messageq) (carried l.channel.in_flight) (m ∷ []),
          )
          refl

  unfoldable delivered : Link A → A → List (ℕ × A) → Link A
  delivered l m rest = record {
    channel = record l.channel { in_flight = rest };
    port = enqueue l.port (m, l.channel.source_id);
  }

  undelivered_lem : (l : Link A) → l.channel.in_flight ≡ [] → link_deliver l ≡ l
  unfolding link_deliver deliver
  undelivered_lem l e = rw e refl

  first_current :
      (l : Link A) (m : ℕ × A) (rest : List (ℕ × A))
      → IsConnected l
      → l.channel.in_flight ≡ m ∷ rest
      → (m.0 ≡ l.channel.destination_version) × All (λ m. m.0 ≡ l.channel.destination_version) rest
  first_current l m rest c e =
      subst (λ ms. All (λ m. m.0 ≡ l.channel.destination_version) ms) e c.current

  delivered_lem :
      (l : Link A) (m : ℕ × A) (rest : List (ℕ × A))
      → IsConnected l
      → l.channel.in_flight ≡ m ∷ rest
      → link_deliver l ≡ delivered l m.1 rest
  unfolding link_deliver deliver delivered
  delivered_lem l m rest c e = ground (arith, e, c.there, (first_current l m rest c e).0)

  pub deliver-IsConnected : (l : Link A) → IsConnected l → IsConnected (link_deliver l)
  unfolding delivered
  deliver-IsConnected l c = elim (List-cases l.channel.in_flight) [
    | inl e ↦ rw (undelivered_lem l e) c
    | inr (m, rest, e) ↦
        rw (delivered_lem l m rest c e)
          (record { there = c.there; current = (first_current l m rest c e).1 })
  ]

  pub pending-deliver : (l : Link A) → IsConnected l → pending (link_deliver l) ≡ pending l
  unfolding enqueue pending delivered payloads carried
  pending-deliver l c = elim (List-cases l.channel.in_flight) [
    | inl e ↦ rw (undelivered_lem l e) refl
    | inr (m, rest, e) ↦
        rw
          (
            delivered_lem l m rest c e,
            e,
            payloads-append l.port.messageq ((m.1, l.channel.source_id) ∷ []),
            append_assoc (payloads l.port.messageq) (m.1 ∷ []) (carried rest),
          )
          refl
  ]

  -- `receive` takes the oldest message that the queue holds.
  pub pending-receive :
      (l l' : Link A) (m : A) → link_receive l ≡ some (m, l') → pending l ≡ m ∷ pending l'
  unfolding link_receive receive receive_with_id pending payloads
  pending-receive l l' m e = ground (arith, e)

  receive-channel : (l l' : Link A) (m : A) → link_receive l ≡ some (m, l') → l'.channel ≡ l.channel
  unfolding link_receive receive receive_with_id
  receive-channel l l' m e = ground (arith, e)

  pub receive-IsConnected :
      (l l' : Link A) (m : A) → link_receive l ≡ some (m, l') → IsConnected l → IsConnected l'
  receive-IsConnected l l' m e c = record {
    there = rw (receive-channel l l' m e) c.there;
    current = rw (receive-channel l l' m e) c.current;
  }
