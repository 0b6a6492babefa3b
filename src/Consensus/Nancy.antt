-- ===== src/Consensus/Nancy.antt =====
-- nancy() of pset2/ctconsensus.cc: the observer that checks the decisions. Her clocks are events.
use mathlib.Core.Path.{subst}
use cs2620_s26_psets.Base.{
  ℕ, ◌+◌, ◌/◌, ◌≡◌, refl, sym, ◌∙◌, ◌≢◌, ◌⊎◌, inl, inr, Bool, true, false, not, ◌&&◌, ◌||◌, List,
  [], ◌∷◌, arith, ltb, leb, if◌then◌else◌, Bool-cases, length, All, ◌<◌,
}
use cs2620_s26_psets.Consensus.Msgs.{m_decide, Message, is_decide, MessageType}
use cs2620_s26_psets.Bytes.{Bytes, str_eq, str_eq_iff}

-- "red" and "blue".
abbrev pub red : Bytes
red = 114 ∷ 101 ∷ 100 ∷ []

abbrev pub blue : Bytes
blue = 98 ∷ 108 ∷ 117 ∷ 101 ∷ []

-- Her variables; `failed` once she has printed an error, and `stopping` once `stopper` is set.
pub record Nancy : Type 0 where
  pub received : ℕ
  pub consensus : Bytes
  pub stopping : Bool
  pub failed : Bool

abbrev pub start_nancy : Nancy
start_nancy = record { received = 0; consensus = []; stopping = false; failed = false }

abbrev pub is_empty_color : Bytes → Bool
is_empty_color [] = true
is_empty_color (x ∷ xs) = false

-- `!expected.empty() && color != expected`.
abbrev pub disagrees : Bytes → Bytes → Bool
disagrees expected color = not (is_empty_color expected) && not (str_eq color expected)

unfoldable pub is_unexpected : Message → Bool
is_unexpected m = not (is_decide m.type) || (not (str_eq m.color red) && not (str_eq m.color blue))

-- A message of the servers; `n` is their number and `required` the color that they all began with.
unfoldable pub nancy_take : ℕ → Bytes → Message → Nancy → Nancy
nancy_take n required m s =
    if s.failed
    then s
    else if is_unexpected m
    then record s { failed = true }
    else if disagrees required m.color || disagrees s.consensus m.color
    then record s { failed = true }
    else record s {
      consensus = m.color;
      received = s.received + 1;
      stopping = s.stopping || ltb (n / 2) (s.received + 1);
    }

unfoldable pub nancy_run : ℕ → Bytes → List Message → Nancy → Nancy
nancy_run n required [] s = s
nancy_run n required (m ∷ ms) s = nancy_run n required ms (nancy_take n required m s)

-- `nancy_approves`, when the stopper goes off.
unfoldable pub nancy_approves : ℕ → Nancy → Bool
nancy_approves n s = not s.failed && not (leb s.received (n / 2))

-- A DECIDE for the color.
unfoldable pub Decides : Bytes → Message → Type 0
Decides color m = (m.type ≡ m_decide) × (m.color ≡ color)

decide_lem : (t : MessageType) → is_decide t ≡ true → t ≡ m_decide
decide_lem t e = ground (arith, e)

empty_lem : (s : Bytes) → is_empty_color s ≡ true → s ≡ []
empty_lem [] e = refl
empty_lem (x ∷ xs) e = cc

module _ (n : ℕ) (required : Bytes) where
  failed_stays :
      (ms : List Message) (s : Nancy) → s.failed ≡ true → (nancy_run n required ms s).failed ≡ true
  unfolding nancy_run nancy_take
  failed_stays [] s e = e
  failed_stays (m ∷ ms) s e = failed_stays ms (nancy_take n required m s) (ground (arith, e))

  -- What a message that she does not object to is like.
  take_lem :
      (m : Message) (s : Nancy)
      → (nancy_take n required m s).failed ≡ false
      → Decides m.color m
        × ((m.color ≡ red) ⊎ (m.color ≡ blue))
        × (required ≢ [] → m.color ≡ required)
        × (s.consensus ≢ [] → m.color ≡ s.consensus)
        × ((nancy_take n required m s).consensus ≡ m.color)
        × ((nancy_take n required m s).received ≡ s.received + 1)
  unfolding nancy_take is_unexpected Decides
  take_lem m s e = ground (
    arith,
    e,
    decide_lem m.type,
    str_eq_iff m.color red,
    str_eq_iff m.color blue,
    str_eq_iff m.color required,
    str_eq_iff m.color s.consensus,
    empty_lem required,
    empty_lem s.consensus,
  )

  -- The state before the last message that she does not object to.
  unfailed_before :
      (ms : List Message) (s : Nancy)
      → (nancy_run n required ms s).failed ≡ false
      → s.failed ≡ false
  unfailed_before ms s e = elim (Bool-cases s.failed) [
    | inl f ↦ ground (arith, e, failed_stays ms s f)
    | inr f ↦ f
  ]

  unanimous :
      (ms : List Message) (s : Nancy)
      → (nancy_run n required ms s).failed ≡ false
      → s.consensus ≢ []
      → All (Decides s.consensus) ms
        × ((nancy_run n required ms s).consensus ≡ s.consensus)
        × ((nancy_run n required ms s).received ≡ s.received + length ms)
  unfolding nancy_run
  unanimous [] s e c = (tt, refl, omega arith)
  unanimous (m ∷ ms) s e c =
      let (d, r, q, a, k, t) = take_lem m s (unfailed_before ms (nancy_take n required m s) e) in
      let same : (nancy_take n required m s).consensus ≡ s.consensus = k ∙ a c in
      let (rest, k', t') = unanimous ms (nancy_take n required m s) e (λ f. c (sym same ∙ f)) in
      (
        (subst (λ x. Decides x m) (a c) d, subst (λ x. All (Decides x) ms) same rest),
        k' ∙ same,
        omega (arith, t, t'),
      )

  unfoldable pub IsAgreed : Bytes → List Message → Type 0
  IsAgreed color ms =
      All (Decides color) ms
      × ((color ≡ red) ⊎ (color ≡ blue))
      × (required ≢ [] → color ≡ required)
      × (n / 2 < length ms)

  first_cases :
      (m : Message) (ms : List Message)
      → (nancy_run n required (m ∷ ms) start_nancy).failed ≡ false
      → n / 2 < (nancy_run n required (m ∷ ms) start_nancy).received
      → (color : Bytes) × IsAgreed color (m ∷ ms)
  unfolding nancy_run IsAgreed
  first_cases m ms e b =
      let (d, r, q, a, k, t) =
        take_lem m start_nancy (unfailed_before ms (nancy_take n required m start_nancy) e) in
      let (rest, k', t') =
        unanimous ms (nancy_take n required m start_nancy) e (λ f. ground (arith, r, k, f)) in
      (m.color, ((d, subst (λ x. All (Decides x) ms) k rest), r, q, omega (arith, b, t, t')))

  approves_lem :
      (ms : List Message)
      → nancy_approves n (nancy_run n required ms start_nancy) ≡ true
      → ((nancy_run n required ms start_nancy).failed ≡ false)
        × (n / 2 < (nancy_run n required ms start_nancy).received)
  unfolding nancy_approves
  approves_lem ms e = ground (arith, e)

-- If Nancy approves of the messages that she has received, then they are more than n / 2 DECIDEs,
-- all for the same color, which is red or blue, and is the required one if there is one.
pub nancy_approves-IsAgreed :
    (n : ℕ) (required : Bytes) (ms : List Message)
    → nancy_approves n (nancy_run n required ms start_nancy) ≡ true
    → (color : Bytes) × IsAgreed n required color ms
unfolding nancy_run
nancy_approves-IsAgreed n required [] e = ground (arith, approves_lem n required [] e)
nancy_approves-IsAgreed n required (m ∷ ms) e =
    first_cases n required m ms (approves_lem n required (m ∷ ms) e).0
      (approves_lem n required (m ∷ ms) e).1
