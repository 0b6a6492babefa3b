-- ===== src/Consensus/Colors.antt =====
-- The colors in a run of pset2/ctconsensus.cc.
use cs2620_s26_psets.Base.{
  ℕ, zero, suc, ◌≡◌, inl, inr, some, List, [], ◌∷◌, arith, ◌==◌, Bool-cases, Option-cases, All,
  get_elem?, All-append, All-map_of, ltb, ◌&&◌,
}
use mathlib.Core.Path.{subst}
use mathlib.Core.Option.{some-injective}
use cs2620_s26_psets.Consensus.Msgs.{to_nancy, to_server, m_ack, m_decide, MessageType, Sent}
use cs2620_s26_psets.Bytes.{Bytes}
use cs2620_s26_psets.Consensus.Net.{
  consensus_step, new_server, first_messages, set_server, from_sender, consensus_run, remove_at,
  System, receive_message, ConsensusEvent, start_system, on_message, on_stash, on_failure,
}
use cs2620_s26_psets.Consensus.Validity.{
  IsGood, IsValid, AllGood, Result, start_round-Result, network-Result, stash-Result,
  failure-Result,
}
use cs2620_s26_psets.Consensus.Server.{Server, from_network, from_stash, failure}

module _ {ℓ κ} {A : Type ℓ} (Q : A → Type κ) where
  pub All-remove_at : (xs : List A) (k : ℕ) → All Q xs → All Q (remove_at xs k)
  unfolding remove_at
  All-remove_at [] k h = tt
  All-remove_at (x ∷ xs) zero h = h.1
  All-remove_at (x ∷ xs) (suc k) h = (h.0, All-remove_at xs k h.1)

  pub All-get_elem? : (xs : List A) (k : ℕ) (x : A) → All Q xs → get_elem? xs k ≡ some x → Q x
  All-get_elem? [] k x h e = cc
  All-get_elem? (y ∷ xs) zero x h e = subst Q (some-injective y x e) h.0
  All-get_elem? (y ∷ xs) (suc k) x h e = All-get_elem? xs k x h.1 e

module _ {ℓ} (P : Bytes → Type ℓ) where
  pub record IsValidSystem (y : System) : Type ℓ where
    pub all_valid : (i : ℕ) → IsValid P (y.servers i)
    pub flight_good : AllGood P y.in_flight
    pub observed_good : All (IsGood P) y.to_observer

  from_sender-AllGood : (i : ℕ) (sent : List Sent) → AllGood P sent → AllGood P (from_sender i sent)
  unfolding from_sender IsGood
  from_sender-AllGood i [] h = tt
  from_sender-AllGood i ((to, m) ∷ sent) h = (h.0, from_sender-AllGood i sent h.1)

  set_server-Valid :
      (i : ℕ) (r : Server × List Sent) (y : System)
      → IsValidSystem y
      → Result P r
      → IsValidSystem (set_server i r y)
  unfolding set_server
  set_server-Valid i r y h v = record {
    all_valid = λ j. elim (Bool-cases (j == i)) [ inl e ↦ rw e v.0 | inr e ↦ rw e (h.all_valid j) ];
    flight_good =
        All-append (λ o. IsGood P o.1) y.in_flight (from_sender i r.1) h.flight_good
          (from_sender-AllGood i r.1 v.1);
    observed_good = h.observed_good;
  }

  message-Valid :
      (k : ℕ) (o : Sent) (y : System)
      → IsValidSystem y
      → IsGood P o.1
      → IsValidSystem (receive_message k o y)
  unfolding receive_message
  message-Valid k (to_nancy, m) y h g = record {
    all_valid = h.all_valid;
    flight_good = All-remove_at (λ o. IsGood P o.1) y.in_flight k h.flight_good;
    observed_good = All-append (IsGood P) y.to_observer (m ∷ []) h.observed_good (g, tt);
  }
  message-Valid k (to_server i, m) y h g = elim (Bool-cases ((y.servers i).stash_size == 0)) [
    | inl e ↦
        rw (receive_message, e)
          (set_server-Valid i (from_network m (y.servers i))
            (record y { in_flight = remove_at y.in_flight k })
            (record {
              all_valid = h.all_valid;
              flight_good = All-remove_at (λ o. IsGood P o.1) y.in_flight k h.flight_good;
              observed_good = h.observed_good;
            })
            (network-Result P m (y.servers i) (h.all_valid i) g))
    | inr e ↦ rw (receive_message, e) h
  ]

  step-Valid :
      (e : ConsensusEvent) (y : System) → IsValidSystem y → IsValidSystem (consensus_step e y)
  unfolding consensus_step
  step-Valid (on_message k) y h = elim (Option-cases (get_elem? y.in_flight k)) [
    | inl f ↦ rw (consensus_step, f) h
    | inr (o, f) ↦
        rw (consensus_step, f)
          (message-Valid k o y h
            (All-get_elem? (λ o. IsGood P o.1) y.in_flight k o h.flight_good f))
  ]
  step-Valid (on_stash i) y h = elim (Bool-cases (ltb i y.size)) [
    | inl f ↦
        rw (consensus_step, f)
          (set_server-Valid i (from_stash (y.servers i)) y h
            (stash-Result P (y.servers i) (h.all_valid i)))
    | inr f ↦ rw (consensus_step, f) h
  ]
  step-Valid (on_failure i) y h =
      elim (Bool-cases (ltb i y.size && (y.servers i).stash_size == 0)) [
        | inl f ↦
            rw (consensus_step, f)
              (set_server-Valid i (failure (y.servers i)) y h
                (failure-Result P (y.servers i) (h.all_valid i)))
        | inr f ↦ rw (consensus_step, f) h
      ]

  run-Valid :
      (es : List ConsensusEvent) (y : System) → IsValidSystem y → IsValidSystem (consensus_run es y)
  unfolding consensus_run
  run-Valid [] y h = h
  run-Valid (e ∷ es) y h = run-Valid es (consensus_step e y) (step-Valid e y h)

  new_server-Result : (id n : ℕ) (color : Bytes) → P color → Result P (new_server id n color)
  unfolding new_server
  new_server-Result id n color p =
      start_round-Result P _ (record { color_valid = p; stash_valid = tt })

  first_messages-AllGood :
      (count n : ℕ) (colors : ℕ → Bytes)
      → ((i : ℕ) → P (colors i))
      → AllGood P (first_messages count n colors)
  unfolding first_messages
  first_messages-AllGood zero n colors p = tt
  first_messages-AllGood (suc count) n colors p =
      All-append (λ o. IsGood P o.1) (first_messages count n colors)
        (from_sender count (new_server count n (colors count)).1)
        (first_messages-AllGood count n colors p)
        (from_sender-AllGood count (new_server count n (colors count)).1
          (new_server-Result count n (colors count) (p count)).1)

decide_not_ack : (t : MessageType) → t ≡ m_decide → t ≡ m_ack → ⊥
decide_not_ack t e f = ground (arith, e, f)

-- If all initial colors have a property, then whatever the number of servers and the order of
-- events, so has the color of every server and of every DECIDE that Nancy receives.
pub consensus_validity {ℓ} :
    (P : Bytes → Type ℓ) (n : ℕ) (colors : ℕ → Bytes) (es : List ConsensusEvent)
    → ((i : ℕ) → P (colors i))
    → let y = consensus_run es (start_system n colors) in
      ((i : ℕ) → P (y.servers i).color) × All (λ m. m.type ≡ m_decide → P m.color) y.to_observer
unfolding IsGood start_system
consensus_validity P n colors es p =
    let v : IsValidSystem P (consensus_run es (start_system n colors)) =
      run-Valid P es (start_system n colors) (record {
        all_valid = λ i. (new_server-Result P i n (colors i) (p i)).0;
        flight_good = first_messages-AllGood P n n colors p;
        observed_good = tt;
      }) in
    (
      (λ i. (v.all_valid i).color_valid),
      All-map_of _ (λ m g e. g (λ f. decide_not_ack m.type e f)) v.observed_good,
    )
