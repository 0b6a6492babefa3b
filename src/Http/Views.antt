-- ===== src/Http/Views.antt =====
-- Positions in the header buffer of cotamer/http.cc as it grows.
use cs2620_s26_psets.Base.{
  ℕ, zero, suc, ◌+◌, ◌-◌, ◌%◌, ◌^◌, ◌≤◌, ◌<◌, ◌≡◌, refl, ap, List, [], ◌∷◌, ◌++◌, map, arith,
  length, All, drop, take, length-append,
}
use cs2620_s26_psets.Bytes.{Bytes}
use cs2620_s26_psets.Http.Message.{KvOffsets, view_of, name_of, value_of}
use cs2620_s26_psets.Lockseq.Strings.{drop-append, take-append}

drop-keep : (n : ℕ) (s t : Bytes) → n ≤ length s → drop n (s ++ t) ≡ drop n s ++ t
drop-keep zero s t l = refl
drop-keep (suc n) [] t l = absurd (omega arith)
drop-keep (suc n) (x ∷ s) t l = drop-keep n s t (omega arith)

take-keep : (n : ℕ) (s t : Bytes) → n ≤ length s → take n (s ++ t) ≡ take n s
take-keep zero s t l = refl
take-keep (suc n) [] t l = absurd (omega arith)
take-keep (suc n) (x ∷ s) t l = ap (λ u. x ∷ u) (take-keep n s t (omega arith))

length-drop : (n : ℕ) (s : Bytes) → length (drop n s) ≡ length s - n
length-drop zero s = omega arith
length-drop (suc n) [] = omega arith
length-drop (suc n) (x ∷ s) = omega (arith, length-drop n s)

-- A view that lies in a part stays when more is appended.
view_of-extend :
    (s t : Bytes) (first last : ℕ)
    → first ≤ last
    → last ≤ length s
    → length s < 2 ^ 32
    → view_of (s ++ t) first last ≡ view_of s first last
view_of-extend s t first last l k b = rw (drop-keep first s t (omega arith)) (
    take-keep ((last + 2 ^ 32 - first) % 2 ^ 32) (drop first s) t
      (omega (arith, length-drop first s)))

pub view_of-middle :
    (pre mid post : Bytes)
    → length pre + length mid < 2 ^ 32
    → view_of (pre ++ (mid ++ post)) (length pre) (length pre + length mid) ≡ mid
view_of-middle pre mid post b = rw (drop-append pre (mid ++ post), size) (take-append mid post)
  where
    size : (length pre + length mid + 2 ^ 32 - length pre) % 2 ^ 32 ≡ length mid
    size = omega arith

pub record Fits (base : Bytes) (p : KvOffsets) : Type 0 where
  pub name_order : p.name1 ≤ p.name2
  pub name_end : p.name2 ≤ length base
  pub value_order : p.value1 ≤ p.value2
  pub value_end : p.value2 ≤ length base

pub Fits-extend : (s t : Bytes) (p : KvOffsets) → Fits s p → Fits (s ++ t) p
Fits-extend s t p h = record {
  name_order = h.name_order;
  name_end = omega (arith, h.name_end, length-append s t);
  value_order = h.value_order;
  value_end = omega (arith, h.value_end, length-append s t);
}

-- The headers as pairs of texts.
abbrev pub pair_of : Bytes → KvOffsets → Bytes × Bytes
pair_of base p = (name_of base p, value_of base p)

abbrev pub views : Bytes → List KvOffsets → List (Bytes × Bytes)
views base ps = map (pair_of base) ps

pub views-extend :
    (s t : Bytes) (ps : List KvOffsets)
    → All (Fits s) ps
    → length s < 2 ^ 32
    → views (s ++ t) ps ≡ views s ps
views-extend s t [] h b = refl
views-extend s t (p ∷ ps) h b =
    rw
      (
        view_of-extend s t p.name1 p.name2 h.0.name_order h.0.name_end b,
        view_of-extend s t p.value1 p.value2 h.0.value_order h.0.value_end b,
        views-extend s t ps h.1 b,
      )
      refl

pub views-append :
    (s : Bytes) (ps qs : List KvOffsets) → views s (ps ++ qs) ≡ views s ps ++ views s qs
views-append s [] qs = refl
views-append s (p ∷ ps) qs = ap (λ t. pair_of s p ∷ t) (views-append s ps qs)
