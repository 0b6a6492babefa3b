-- ===== src/Http/MachineParams.antt =====
-- The steps on texts give the parameters of a query, for cotamer/http.cc.
use cs2620_s26_psets.Base.{
  ℕ, zero, suc, ◌≡◌, refl, sym, ap, ◌∙◌, ◌⊎◌, inl, inr, Bool, true, false, Option, none, some, [],
  ◌∷◌, ◌++◌, ◌==◌, if◌then◌else◌, Bool-cases, Option-cases, append_nil, append_assoc,
}
use cs2620_s26_psets.Bytes.{Bytes}
use cs2620_s26_psets.Http.Query.{is_hex, escape}
use cs2620_s26_psets.Http.Params.{
  decode_from, first_piece, more_pieces, name_part, value_part, pairs, params, hex_not,
}
use cs2620_s26_psets.Http.Machine.{
  Part, p_start, p_name, p_value, emit, push, is_value_part, begin_value, token, part_step,
  part_loop, from, Passes, decode-token, token-first_piece, token-name_part, token_of,
}

decode_from-nil : (k : ℕ) → decode_from k [] ≡ []
unfolding decode_from
decode_from-nil zero = refl
decode_from-nil (suc k) = refl

from-nil : (k : ℕ) (p : Part) → emit p ≡ from k p []
unfolding pairs first_piece more_pieces name_part value_part decode_from
from-nil k p_start = refl
from-nil k (p_name n) = rw (decode_from-nil k, append_nil n) refl
from-nil k (p_value n v) = rw (decode_from-nil k, append_nil v) refl

-- A byte of an escape.
from-pass :
    (k ch : ℕ) (s : Bytes) (p : Part)
    → Passes (suc k) (ch ∷ s) p
    → from (suc k) p (ch ∷ s) ≡ from k p s
unfolding pairs first_piece more_pieces name_part value_part decode_from Passes
from-pass k ch s p_start h = elim h [ ]
from-pass k ch s (p_name n) h = rw (first_piece, (hex_not ch h.0).0, (hex_not ch h.0).1) refl
from-pass k ch s (p_value n v) h = rw (first_piece, (hex_not ch h.0).0) refl

Passes-pass : (k ch : ℕ) (s : Bytes) (p : Part) → Passes (suc k) (ch ∷ s) p → Passes k s p
unfolding Passes
Passes-pass k ch s p_start h = elim h [ ]
Passes-pass k ch s (p_name n) h = h.1
Passes-pass k ch s (p_value n v) h = h.1

from-ampersand :
    (ch : ℕ) (s : Bytes) (p : Part)
    → (ch == b'&') ≡ true
    → from 0 p (ch ∷ s) ≡ emit p ++ from 0 p_start s
unfolding pairs first_piece more_pieces name_part value_part decode_from
from-ampersand ch s p_start e = rw (first_piece, more_pieces, e) refl
from-ampersand ch s (p_name n) e = rw (first_piece, more_pieces, e, append_nil n) refl
from-ampersand ch s (p_value n v) e = rw (first_piece, more_pieces, e, append_nil v) refl

from-equals :
    (ch : ℕ) (s : Bytes) (p : Part)
    → (ch == b'&') ≡ false
    → (ch == b'=') ≡ true
    → is_value_part p ≡ false
    → from 0 p (ch ∷ s) ≡ from 0 (begin_value p) s
unfolding pairs first_piece more_pieces name_part value_part decode_from
from-equals ch s p_start e f g = rw (first_piece, more_pieces, e, f) refl
from-equals ch s (p_name n) e f g = rw (first_piece, more_pieces, e, f, append_nil n) refl
from-equals ch s (p_value n v) e f g = cc

piece-token :
    (ch : ℕ) (s : Bytes)
    → decode_from 0 (ch ∷ first_piece s)
      ≡ (token ch s).1 ∷ decode_from (token ch s).0 (first_piece s)
piece-token ch s = rw (decode-token ch (first_piece s), token-first_piece ch s) refl

name-token :
    (ch : ℕ) (s : Bytes)
    → decode_from 0 (ch ∷ name_part (first_piece s))
      ≡ (token ch s).1 ∷ decode_from (token ch s).0 (name_part (first_piece s))
name-token ch s =
    rw
      (
        decode-token ch (name_part (first_piece s)),
        token-name_part ch (first_piece s),
        token-first_piece ch s,
      )
      refl

-- A byte of a name or a value.
from-token :
    (ch : ℕ) (s : Bytes) (p : Part)
    → (ch == b'&') ≡ false
    → ((ch == b'=') ≡ false) ⊎ (is_value_part p ≡ true)
    → from 0 p (ch ∷ s) ≡ from (token ch s).0 (push (token ch s).1 p) s
unfolding pairs first_piece more_pieces name_part value_part
from-token ch s p_start e (inl f) = rw (first_piece, more_pieces, e, f, name-token ch s) refl
from-token ch s p_start e (inr f) = cc
from-token ch s (p_name n) e (inl f) =
    rw
      (
        first_piece,
        more_pieces,
        e,
        f,
        name-token ch s,
        append_assoc n ((token ch s).1 ∷ [])
            (decode_from (token ch s).0 (name_part (first_piece s))),
      )
      refl
from-token ch s (p_name n) e (inr f) = cc
from-token ch s (p_value n v) e f =
    rw
      (
        first_piece,
        more_pieces,
        e,
        piece-token ch s,
        append_assoc v ((token ch s).1 ∷ []) (decode_from (token ch s).0 (first_piece s)),
      )
      refl

Passes-hex :
    (a b : ℕ) (s : Bytes) (p : Part) (v : ℕ)
    → is_hex a ≡ true
    → is_hex b ≡ true
    → Passes 2 (a ∷ b ∷ s) (push v p)
unfolding Passes
Passes-hex a b s p_start v h k = (h, (k, tt))
Passes-hex a b s (p_name n) v h k = (h, (k, tt))
Passes-hex a b s (p_value n w) v h k = (h, (k, tt))

escape-hex :
    (a b v : ℕ) (s : Bytes) → escape (a ∷ b ∷ s) ≡ some v → (is_hex a ≡ true) × (is_hex b ≡ true)
unfolding escape
escape-hex a b v s e = elim (Bool-cases (is_hex a)) [
  | inl h ↦ elim (Bool-cases (is_hex b)) [
    | inl k ↦ (h, k)
    | inr k ↦ absurd (cc (rw (escape, h, k) at e))
  ]
  | inr h ↦ absurd (cc (rw (escape, h) at e))
]

escape-Passes : (s : Bytes) (v : ℕ) (p : Part) → escape s ≡ some v → Passes 2 s (push v p)
unfolding escape
escape-Passes [] v p e = cc
escape-Passes (a ∷ []) v p e = cc
escape-Passes (a ∷ b ∷ s) v p e =
    Passes-hex a b s p v (escape-hex a b v s e).0 (escape-hex a b v s e).1

if_some : (c : Bool) (o : Option ℕ) (v : ℕ) → (if c then o else none) ≡ some v → o ≡ some v
if_some true o v e = e
if_some false o v e = cc

token-Passes : (ch : ℕ) (s : Bytes) (p : Part) → Passes (token ch s).0 s (push (token ch s).1 p)
unfolding token escape Passes
token-Passes ch s p = elim (Option-cases (if ch == b'%' then escape s else none)) [
  | inl e ↦ rw (token, token_of, e) tt
  | inr (v, e) ↦ rw (token, token_of, e) (escape-Passes s v p (if_some (ch == b'%') (escape s) v e))
]

-- One round.
part_step-from :
    (ch : ℕ) (s : Bytes) (p : Part)
    → let r = part_step ch s p in Passes r.0 s r.2 × (from 0 p (ch ∷ s) ≡ r.1 ++ from r.0 r.2 s)
unfolding part_step Passes
part_step-from ch s p = elim (Bool-cases (ch == b'&')) [
  | inl e ↦ rw (part_step, e) (tt, from-ampersand ch s p e)
  | inr e ↦ elim (Bool-cases (ch == b'=')) [
    | inl f ↦ elim (Bool-cases (is_value_part p)) [
      | inl g ↦ rw (part_step, e, f, g) (token-Passes ch s p, from-token ch s p e (inr g))
      | inr g ↦ rw (part_step, e, f, g) (tt, from-equals ch s p e f g)
    ]
    | inr f ↦ rw (part_step, e, f) (token-Passes ch s p, from-token ch s p e (inl f))
  ]
]

part_loop-from : (k : ℕ) (s : Bytes) (p : Part) → Passes k s p → part_loop k s p ≡ from k p s
unfolding part_loop part_step
part_loop-from k [] p h = from-nil k p
part_loop-from (suc k) (ch ∷ s) p h =
    part_loop-from k s p (Passes-pass k ch s p h) ∙ sym (from-pass k ch s p h)
part_loop-from zero (ch ∷ s) p h =
    let step = part_step-from ch s p in
    let r = part_step ch s p in ap (λ t. r.1 ++ t) (part_loop-from r.0 s r.2 step.0) ∙ sym step.1

pub part_loop-params : (s : Bytes) → part_loop 0 s p_start ≡ params s
unfolding params Passes
part_loop-params s = part_loop-from 0 s p_start tt
