-- ===== src/Pancy/Recent.antt =====
-- The deque of recent removals and the loop that bounds it.
use cs2620_s26_psets.Base.{
  ℕ, zero, suc, ◌≤◌, ◌≡◌, refl, List, [], ◌∷◌, arith, length, All, take, Bool-cases, ◌∙◌, sym, inl,
  inr, length-take-le, All-take, ltb, ap,
}
use cs2620_s26_psets.Pancy.Db.{RecentRemove, max_recent_removes, pop_back, trim_removes}

length-pop_back :
    (r : RecentRemove) (rs : List RecentRemove) → length (pop_back (r ∷ rs)) ≡ length rs
length-pop_back r [] = refl
length-pop_back r (s ∷ rs) = omega (arith, length-pop_back s rs)

take-pop_back :
    (n : ℕ) (r : RecentRemove) (rs : List RecentRemove)
    → n ≤ length rs
    → take n (pop_back (r ∷ rs)) ≡ take n (r ∷ rs)
take-pop_back zero r rs h = refl
take-pop_back (suc n) r [] h = absurd (omega arith)
take-pop_back (suc n) r (s ∷ rs) h = ap (◌∷◌ r) (take-pop_back n s rs (omega arith))

take_all : (n : ℕ) (rs : List RecentRemove) → length rs ≤ n → take n rs ≡ rs
take_all zero [] h = refl
take_all zero (r ∷ rs) h = absurd (omega arith)
take_all (suc n) [] h = refl
take_all (suc n) (r ∷ rs) h = ap (◌∷◌ r) (take_all n rs (omega arith))

-- The newest entries, up to the limit.
pub newest : List RecentRemove → List RecentRemove
newest rs = take max_recent_removes rs

pub length-newest : (rs : List RecentRemove) → length (newest rs) ≤ max_recent_removes
unfolding newest
length-newest rs = length-take-le max_recent_removes rs

pub newest-All {κ} :
    (P : RecentRemove → Type κ) (rs : List RecentRemove) → All P rs → All P (newest rs)
unfolding newest
newest-All P rs h = All-take P max_recent_removes rs h

-- The loop keeps the newest entries, up to the limit.
pub trim_removes_lem :
    (fuel : ℕ) (rs : List RecentRemove) → length rs ≤ fuel → trim_removes fuel rs ≡ newest rs
unfolding trim_removes newest
trim_removes_lem zero [] h = refl
trim_removes_lem zero (r ∷ rs) h = absurd (omega arith)
trim_removes_lem (suc fuel) [] h = refl
trim_removes_lem (suc fuel) (r ∷ rs) h =
    elim (Bool-cases (ltb max_recent_removes (length (r ∷ rs)))) [
      | inl long ↦ rw long (
          trim_removes_lem fuel (pop_back (r ∷ rs)) (omega (arith, length-pop_back r rs))
          ∙ take-pop_back max_recent_removes r rs (ground arith))
      | inr short ↦ rw short (sym (take_all max_recent_removes (r ∷ rs) (ground arith)))
    ]
