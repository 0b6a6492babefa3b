-- ===== src/Http/Machine.antt =====
-- The loop of make_info in cotamer/http.cc without its positions: the same steps on the texts
-- themselves, and the pairs that they give.
use cs2620_s26_psets.Base.{
  ℕ, zero, suc, ◌≡◌, refl, ap, inl, inr, Bool, true, false, not, ◌&&◌, Option, none, some, List, [],
  ◌∷◌, ◌++◌, arith, ◌==◌, if◌then◌else◌, Option-cases, sym, ◌∙◌,
}
use cs2620_s26_psets.Bytes.{Bytes}
use cs2620_s26_psets.Http.Query.{is_hex, escape}
use cs2620_s26_psets.Http.Params.{
  decode_from, decode, first_piece, more_pieces, pieces, name_part, value_part, pairs, hex_not,
  percent_byte, escape-percent_byte,
}

-- The name and the value so far.
pub data Part : Type 0 where
  p_start : Part
  p_name : Bytes → Part
  p_value : Bytes → Bytes → Part

abbrev pub emit : Part → List (Bytes × Bytes)
emit p_start = []
emit (p_name n) = (n, []) ∷ []
emit (p_value n v) = (n, v) ∷ []

abbrev pub push : ℕ → Part → Part
push b p_start = p_name (b ∷ [])
push b (p_name n) = p_name (n ++ (b ∷ []))
push b (p_value n v) = p_value n (v ++ (b ∷ []))

abbrev pub is_value_part : Part → Bool
is_value_part p_start = false
is_value_part (p_name n) = false
is_value_part (p_value n v) = true

abbrev pub begin_value : Part → Part
begin_value p_start = p_value [] []
begin_value (p_name n) = p_value n []
begin_value (p_value n v) = p_value n v

-- The byte that stands here, and the number of further bytes that it takes.
abbrev pub token_of : ℕ → Option ℕ → ℕ × ℕ
token_of ch o = elim (if ch == b'%' then o else none) [
  | none ↦ (0, if ch == b'+' then b' ' else ch)
  | some v ↦ (2, v)
]

unfoldable pub token : ℕ → Bytes → ℕ × ℕ
unfolding escape
token ch s = token_of ch (escape s)

unfoldable pub part_step : ℕ → Bytes → Part → ℕ × List (Bytes × Bytes) × Part
unfolding token
part_step ch s p =
    let other : ℕ × List (Bytes × Bytes) × Part = ((token ch s).0, [], push (token ch s).1 p) in
    if ch == b'&'
    then (0, emit p, p_start)
    else if ch == b'=' && not (is_value_part p)
    then (0, [], begin_value p)
    else other

unfoldable pub part_loop : ℕ → Bytes → Part → List (Bytes × Bytes)
unfolding part_step
part_loop k [] p = emit p
part_loop (suc k) (ch ∷ s) p = part_loop k s p
part_loop zero (ch ∷ s) p = let r = part_step ch s p in r.1 ++ part_loop r.0 s r.2

-- What the loop should give from here on.
abbrev pub from : ℕ → Part → Bytes → List (Bytes × Bytes)
from k p_start s = pairs (pieces s)
from k (p_name n) s =
    (n ++ decode_from k (name_part (first_piece s)), decode (value_part (first_piece s)))
    ∷ pairs (more_pieces s)
from k (p_value n v) s = (n, v ++ decode_from k (first_piece s)) ∷ pairs (more_pieces s)

unfoldable pub Passes : ℕ → Bytes → Part → Type 0
Passes zero s p = Unit
Passes (suc k) [] p = ⊥
Passes (suc k) (ch ∷ s) p_start = ⊥
Passes (suc k) (ch ∷ s) (p_name n) = (is_hex ch ≡ true) × Passes k s (p_name n)
Passes (suc k) (ch ∷ s) (p_value n v) = (is_hex ch ≡ true) × Passes k s (p_value n v)

pub decode-token :
    (ch : ℕ) (s : Bytes) → decode_from 0 (ch ∷ s) ≡ (token ch s).1 ∷ decode_from (token ch s).0 s
unfolding decode_from token
decode-token ch s = elim (Option-cases (if ch == b'%' then escape s else none)) [
  | inl e ↦ rw (decode_from, token, token_of, e, same ∙ e) refl
  | inr (v, e) ↦ rw (decode_from, token, token_of, e, same ∙ e) refl
]
  where
    same : (if ch == b'%' then percent_byte s else none) ≡ (if ch == b'%' then escape s else none)
    same = ap (λ o. if ch == b'%' then o else none) (sym (escape-percent_byte s))

escape-first_piece : (s : Bytes) → escape (first_piece s) ≡ escape s
unfolding escape first_piece
escape-first_piece [] = refl
escape-first_piece (a ∷ []) = ground arith
escape-first_piece (a ∷ b ∷ s) = ground (arith, hex_not a, hex_not b)

escape-name_part : (s : Bytes) → escape (name_part s) ≡ escape s
unfolding escape name_part
escape-name_part [] = refl
escape-name_part (a ∷ []) = ground arith
escape-name_part (a ∷ b ∷ s) = ground (arith, hex_not a, hex_not b)

pub token-first_piece : (ch : ℕ) (s : Bytes) → token ch (first_piece s) ≡ token ch s
unfolding token
token-first_piece ch s = ap (λ o. token_of ch o) (escape-first_piece s)

pub token-name_part : (ch : ℕ) (s : Bytes) → token ch (name_part s) ≡ token ch s
unfolding token
token-name_part ch s = ap (λ o. token_of ch o) (escape-name_part s)
