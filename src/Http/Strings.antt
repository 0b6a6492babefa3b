-- ===== src/Http/Strings.antt =====
-- What strings::ieq and strings::trim_hws of cotamer/cotamer_impl.hh are to compute.
use cs2620_s26_psets.Base.{
  ℕ, ◌≡◌, refl, sym, ap, ◌∙◌, inl, inr, Bool, true, false, ◌&&◌, ◌||◌, [], ◌∷◌, ◌++◌, map, leb,
  ◌==◌, if◌then◌else◌, ◌+◌, Bool-cases, List-cases,
}
use cs2620_s26_psets.Bytes.{Bytes, str_eq}
use cs2620_s26_psets.Http.Chars.{ieq, to_lower, is_hws, trim_front, trim_back, trim_hws}

-- Equality of names once their letters are lower case.
abbrev pub lower_case : ℕ → ℕ
lower_case ch = if leb 65 ch && leb ch 90 then ch + 32 else ch

abbrev pub same_name : Bytes → Bytes → Bool
same_name s t = str_eq (map lower_case s) (map lower_case t)

pub ieq-same_name : (s t : Bytes) → ieq s t ≡ same_name s t
unfolding ieq str_eq
ieq-same_name [] [] = refl
ieq-same_name [] (b ∷ t) = refl
ieq-same_name (a ∷ s) [] = refl
ieq-same_name (a ∷ s) (b ∷ t) = ap (λ x. to_lower a == to_lower b && x) (ieq-same_name s t)

-- Spaces and tabs at the start, then at the end, of a text.
unfoldable pub drop_blanks : Bytes → Bytes
drop_blanks [] = []
drop_blanks (ch ∷ s) = if ch == 32 || ch == 9 then drop_blanks s else ch ∷ s

unfoldable pub reversed : Bytes → Bytes
reversed [] = []
reversed (ch ∷ s) = reversed s ++ (ch ∷ [])

abbrev pub strip : Bytes → Bytes
strip s = reversed (drop_blanks (reversed (drop_blanks s)))

trim_front-drop_blanks : (s : Bytes) → trim_front s ≡ drop_blanks s
unfolding trim_front drop_blanks
trim_front-drop_blanks [] = refl
trim_front-drop_blanks (ch ∷ s) =
    ap (λ t. if is_hws ch then t else ch ∷ s) (trim_front-drop_blanks s)

-- One more byte at the end.
drop_blanks-nil :
    (s : Bytes) (ch : ℕ)
    → drop_blanks s ≡ []
    → drop_blanks (s ++ (ch ∷ [])) ≡ (if is_hws ch then [] else ch ∷ [])
unfolding drop_blanks
drop_blanks-nil [] ch e = refl
drop_blanks-nil (x ∷ s) ch e = elim (Bool-cases (is_hws x)) [
  | inl b ↦ rw (drop_blanks, b) (drop_blanks-nil s ch (rw (drop_blanks, b) at e))
  | inr b ↦ absurd (cc (rw (drop_blanks, b) at e))
]

drop_blanks-cons :
    (s : Bytes) (ch d : ℕ) (t : Bytes)
    → drop_blanks s ≡ d ∷ t
    → drop_blanks (s ++ (ch ∷ [])) ≡ (d ∷ t) ++ (ch ∷ [])
unfolding drop_blanks
drop_blanks-cons [] ch d t e = absurd (cc e)
drop_blanks-cons (x ∷ s) ch d t e = elim (Bool-cases (is_hws x)) [
  | inl b ↦ rw (drop_blanks, b) (drop_blanks-cons s ch d t (rw (drop_blanks, b) at e))
  | inr b ↦ rw (drop_blanks, b) (ap (λ u. u ++ (ch ∷ [])) (rw (drop_blanks, b) at e))
]

reversed-snoc : (s : Bytes) (ch : ℕ) → reversed (s ++ (ch ∷ [])) ≡ ch ∷ reversed s
unfolding reversed
reversed-snoc [] ch = refl
reversed-snoc (x ∷ s) ch = ap (λ t. t ++ (x ∷ [])) (reversed-snoc s ch)

-- One step of trim_back.
trim_step : ℕ → Bytes → Bytes
trim_step ch [] = if is_hws ch then [] else ch ∷ []
trim_step ch (d ∷ t) = ch ∷ d ∷ t

trim_back-step : (ch : ℕ) (s : Bytes) → trim_back (ch ∷ s) ≡ trim_step ch (trim_back s)
unfolding trim_back trim_step
trim_back-step ch s = elim (List-cases (trim_back s)) [
  | inl e ↦ rw (trim_back, e) refl
  | inr (d, t, e) ↦ rw (trim_back, e) refl
]

reversed_if :
    (b : Bool) (ch : ℕ) → (if b then [] else ch ∷ []) ≡ reversed (if b then [] else ch ∷ [])
unfolding reversed
reversed_if true ch = refl
reversed_if false ch = refl

trim_step-snoc : (ch : ℕ) (s : Bytes) (d : ℕ) → trim_step ch (s ++ (d ∷ [])) ≡ ch ∷ (s ++ (d ∷ []))
unfolding trim_step
trim_step-snoc ch [] d = refl
trim_step-snoc ch (x ∷ s) d = refl

trim_back-reversed : (s : Bytes) → trim_back s ≡ reversed (drop_blanks (reversed s))
unfolding trim_step reversed trim_back drop_blanks
trim_back-reversed [] = refl
trim_back-reversed (ch ∷ s) =
    trim_back-step ch s
    ∙ ap (trim_step ch) (trim_back-reversed s)
    ∙ elim (List-cases (drop_blanks (reversed s))) [
      | inl e ↦
          ap (λ u. trim_step ch (reversed u)) e
          ∙ reversed_if (is_hws ch) ch
          ∙ sym (ap reversed (drop_blanks-nil (reversed s) ch e))
      | inr (d, t, e) ↦
          ap (λ u. trim_step ch (reversed u)) e
          ∙ trim_step-snoc ch (reversed t) d
          ∙ sym (reversed-snoc (d ∷ t) ch)
          ∙ sym (ap reversed (drop_blanks-cons (reversed s) ch d t e))
    ]

pub trim_hws-strip : (s : Bytes) → trim_hws s ≡ strip s
unfolding trim_hws
trim_hws-strip s =
    trim_back-reversed (trim_front s)
    ∙ ap (λ t. reversed (drop_blanks (reversed t))) (trim_front-drop_blanks s)
