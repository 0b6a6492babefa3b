-- ===== src/Http/Params.antt =====
-- What the parameters of a URL are, for cotamer/http.cc: the query is cut at every `&`, empty
-- pieces are dropped, each other piece is cut at its first `=`, and both parts are decoded.
use cs2620_s26_psets.Base.{
  ◌∙◌, ap, sym, Bool, ◌&&◌, leb, ◌-◌, ◌+◌, ◌*◌, Option, refl, ℕ, zero, suc, ◌≡◌, true, false, none,
  some, List, [], ◌∷◌, arith, ◌==◌, if◌then◌else◌, ap,
}
use cs2620_s26_psets.Bytes.{Bytes}
use cs2620_s26_psets.Http.Query.{is_hex, escape}
use cs2620_s26_psets.Http.Chars.{chartable, xvalue}

-- The value of a hexadecimal digit.
unfoldable pub digit_value : ℕ → Option ℕ
digit_value ch =
    if leb 48 ch && leb ch 57
    then some (ch - 48)
    else if leb 65 ch && leb ch 70
    then some (ch - 55)
    else if leb 97 ch && leb ch 102
    then some (ch - 87)
    else none

abbrev byte_of_digits : Option ℕ → Option ℕ → Option ℕ
byte_of_digits none low = none
byte_of_digits (some high) none = none
byte_of_digits (some high) (some low) = some (16 * high + low)

-- The byte that two digits after a `%` stand for.
unfoldable pub percent_byte : Bytes → Option ℕ
unfolding digit_value
percent_byte [] = none
percent_byte (a ∷ []) = none
percent_byte (a ∷ b ∷ s) = byte_of_digits (digit_value a) (digit_value b)

digit_value_lem : (ch : ℕ) → digit_value ch ≡ (if is_hex ch then some (xvalue ch) else none)
unfolding digit_value is_hex chartable
digit_value_lem ch = ground arith

byte_of_digits_lem :
    (x y : Bool) (high low : ℕ)
    → (if x && y then some (high * 16 + low) else none)
      ≡ byte_of_digits (if x then some high else none) (if y then some low else none)
byte_of_digits_lem true true high low = ap (λ v. some v) (omega arith)
byte_of_digits_lem true false high low = refl
byte_of_digits_lem false y high low = refl

pub escape-percent_byte : (s : Bytes) → escape s ≡ percent_byte s
unfolding escape percent_byte
escape-percent_byte [] = refl
escape-percent_byte (a ∷ []) = refl
escape-percent_byte (a ∷ b ∷ s) =
    byte_of_digits_lem (is_hex a) (is_hex b) (xvalue a) (xvalue b)
    ∙ ap (λ o. byte_of_digits o (if is_hex b then some (xvalue b) else none))
        (sym (digit_value_lem a))
    ∙ ap (λ o. byte_of_digits (digit_value a) o) (sym (digit_value_lem b))

-- Decoding; the first argument counts the bytes to be passed.
unfoldable pub decode_from : ℕ → Bytes → Bytes
unfolding percent_byte
decode_from k [] = []
decode_from (suc k) (ch ∷ s) = decode_from k s
decode_from zero (ch ∷ s) = elim (if ch == b'%' then percent_byte s else none) [
  | none ↦ (if ch == b'+' then b' ' else ch) ∷ decode_from 0 s
  | some v ↦ v ∷ decode_from 2 s
]

abbrev pub decode : Bytes → Bytes
decode s = decode_from 0 s

-- Up to a byte, and the pieces after it.
unfoldable pub first_piece : Bytes → Bytes
first_piece [] = []
first_piece (ch ∷ s) = if ch == b'&' then [] else ch ∷ first_piece s

unfoldable pub more_pieces : Bytes → List Bytes
unfolding first_piece
more_pieces [] = []
more_pieces (ch ∷ s) = let rest = more_pieces s in if ch == b'&' then first_piece s ∷ rest else rest

abbrev pub pieces : Bytes → List Bytes
pieces s = first_piece s ∷ more_pieces s

unfoldable pub name_part : Bytes → Bytes
name_part [] = []
name_part (ch ∷ s) = if ch == b'=' then [] else ch ∷ name_part s

unfoldable pub value_part : Bytes → Bytes
value_part [] = []
value_part (ch ∷ s) = if ch == b'=' then s else value_part s

unfoldable pub pairs : List Bytes → List (Bytes × Bytes)
unfolding decode_from name_part value_part
pairs [] = []
pairs ([] ∷ ps) = pairs ps
pairs ((ch ∷ s) ∷ ps) = (decode (name_part (ch ∷ s)), decode (value_part (ch ∷ s))) ∷ pairs ps

unfoldable pub params : Bytes → List (Bytes × Bytes)
unfolding pairs more_pieces
params s = pairs (pieces s)

pub hex_not : (ch : ℕ) → is_hex ch ≡ true → ((ch == b'&') ≡ false) × ((ch == b'=') ≡ false)
unfolding is_hex chartable
hex_not ch h = (ground (arith, h), ground (arith, h))
