-- ===== src/Http/Trim.antt =====
-- Removing blanks at the end: the loop of on_header_value_complete in cotamer/http.cc, and that of
-- strings::trim_hws in cotamer/cotamer_impl.hh.
use cs2620_s26_psets.Base.{
  ℕ, zero, suc, ◌+◌, ◌≤◌, ◌<◌, ◌≡◌, refl, sym, ap, inl, inr, true, false, ◌&&◌, [], ◌∷◌, ◌++◌,
  arith, ◌==◌, if◌then◌else◌, Bool-cases, length, List-cases, ==_iff, length-append, append_assoc,
}
use cs2620_s26_psets.Bytes.{Bytes}
use cs2620_s26_psets.Http.Chars.{is_hws, trim_back}
use cs2620_s26_psets.Http.Callbacks.{hws_at, trim_end}
use cs2620_s26_psets.Lockseq.Strings.{get_elem?-append}

-- The blanks that trim_back removes.
unfoldable pub blank_end : Bytes → Bytes
unfolding trim_back
blank_end [] = []
blank_end (ch ∷ s) = elim (trim_back s) [
  | [] ↦ if is_hws ch then ch ∷ blank_end s else blank_end s
  | d ∷ t ↦ blank_end s
]

pub trim_back-blank_end : (s : Bytes) → trim_back s ++ blank_end s ≡ s
unfolding trim_back blank_end
trim_back-blank_end [] = refl
trim_back-blank_end (ch ∷ s) = elim (List-cases (trim_back s)) [
  | inl e ↦ elim (Bool-cases (is_hws ch)) [
    | inl b ↦ rw (trim_back, blank_end, e, b) (ap (λ t. ch ∷ t) (rw e at (trim_back-blank_end s)))
    | inr b ↦ rw (trim_back, blank_end, e, b) (ap (λ t. ch ∷ t) (rw e at (trim_back-blank_end s)))
  ]
  | inr (d, t, e) ↦
      rw (trim_back, blank_end, e) (ap (λ u. ch ∷ u) (rw e at (trim_back-blank_end s)))
]

trim_end-least : (s : Bytes) (a : ℕ) → trim_end s a a ≡ a
unfolding trim_end
trim_end-least s zero = refl
trim_end-least s (suc a) = ground arith

trim_end-ge : (s : Bytes) (a n : ℕ) → a ≤ n → a ≤ trim_end s a n
unfolding trim_end
trim_end-ge s a zero l = l
trim_end-ge s a (suc n) l = ground (arith, trim_end-ge s a n)

trim_end-one : (s : Bytes) (a : ℕ) → trim_end s a (suc a) ≡ (if hws_at s a then a else suc a)
unfolding trim_end
trim_end-one s a = elim (Bool-cases (hws_at s a)) [
  | inl b ↦ ground (arith, b, trim_end-least s a)
  | inr b ↦ ground (arith, b)
]

trim_end-blank :
    (s : Bytes) (a n : ℕ) → a ≤ n → hws_at s n ≡ true → trim_end s a (suc n) ≡ trim_end s a n
unfolding trim_end
trim_end-blank s a n l b = ground (arith, b, l)

trim_end-stop : (s : Bytes) (a n : ℕ) → hws_at s n ≡ false → trim_end s a (suc n) ≡ suc n
unfolding trim_end
trim_end-stop s a n b = ground (arith, b)

-- The loop, when it may go one byte further.
abbrev lower : Bytes → ℕ → ℕ → ℕ
lower s a k = if k == suc a && hws_at s a then a else k

lower-same : (s : Bytes) (a : ℕ) → lower s a (suc a) ≡ (if hws_at s a then a else suc a)
lower-same s a = ground arith

lower-above : (s : Bytes) (a n : ℕ) → a < n → lower s a (suc n) ≡ suc n
lower-above s a n l = ground arith

trim_end-lower : (s : Bytes) (a n : ℕ) → a < n → trim_end s a n ≡ lower s a (trim_end s (suc a) n)
trim_end-lower s a zero l = absurd (omega arith)
trim_end-lower s a (suc n) l = elim (Bool-cases (n == a)) [
  | inl e ↦ rw ((==_iff n a).0 e, trim_end-one s a, trim_end-least s (suc a)) (sym (lower-same s a))
  | inr e ↦ elim (Bool-cases (hws_at s n)) [
    | inl b ↦
        rw (trim_end-blank s a n (omega arith) b, trim_end-blank s (suc a) n (above e l) b)
          (trim_end-lower s a n (above e l))
    | inr b ↦
        rw (trim_end-stop s a n b, trim_end-stop s (suc a) n b)
          (sym (lower-above s a n (above e l)))
  ]
]
  where
    above : {a n : ℕ} → (n == a) ≡ false → a < suc n → a < n
    above e l = ground (arith, e, l)

hws_at-append :
    (pre : Bytes) (ch : ℕ) (s : Bytes) → hws_at (pre ++ (ch ∷ s)) (length pre) ≡ is_hws ch
unfolding hws_at
hws_at-append pre ch s = rw (hws_at, get_elem?-append pre ch s) refl

length-snoc : (pre : Bytes) (ch : ℕ) → length (pre ++ (ch ∷ [])) ≡ suc (length pre)
length-snoc pre ch = rw (length-append pre (ch ∷ [])) (omega arith)

-- The loop stops where trim_back does.
pub trim_end-trim_back :
    (pre s : Bytes) (n : ℕ)
    → n ≡ length pre + length s
    → trim_end (pre ++ s) (length pre) n ≡ length pre + length (trim_back s)
unfolding trim_back
trim_end-trim_back pre [] n e =
    let here : n ≡ length pre = omega arith in
    rw (here, trim_end-least (pre ++ []) (length pre)) (omega arith)
trim_end-trim_back pre (ch ∷ s) n e =
    let later = trim_end-trim_back (pre ++ (ch ∷ [])) s n (omega (arith, length-snoc pre ch)) in
    let later' : trim_end (pre ++ (ch ∷ s)) (suc (length pre)) n
        ≡ suc (length pre) + length (trim_back s) =
      rw (append_assoc pre (ch ∷ []) s, length-snoc pre ch) at later in
    rw
      (
        trim_end-lower (pre ++ (ch ∷ s)) (length pre) n (omega arith),
        later',
        hws_at-append pre ch s,
      )
      (elim (List-cases (trim_back s)) [
        | inl f ↦ elim (Bool-cases (is_hws ch)) [
          | inl b ↦ rw (f, b) (ground arith)
          | inr b ↦ rw (f, b) (ground arith)
        ]
        | inr (d, t, f) ↦ rw f (ground arith)
      ])
