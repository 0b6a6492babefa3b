-- ===== src/Http/UrlEnds.antt =====
-- The loop of make_info over a URL, cotamer/http.cc, from each value of `fpos`.
use cs2620_s26_psets.Base.{
  ℕ, ◌^◌, ◌≡◌, refl, inl, inr, true, false, none, some, ◌==◌, Bool-cases, ◌∷◌, ◌+◌, length, ◌<◌,
  arith, [], suc, ap, Option-cases,
}
use cs2620_s26_psets.Http.Url.{UrlInfo, next_byte, url_step, url_loop, failed}
use cs2620_s26_psets.Http.UrlParts.{is_url_byte, all_url_bytes, before_hash, before_question}
use cs2620_s26_psets.Bytes.{Bytes}
use cs2620_s26_psets.Http.UrlFields.{
  finish, at, end-0, end-1, end-2, step-0, step-1, step-2, step-none, bytes_head, url_loop-next,
  url_loop-nil, Fields,
}

-- The lengths of the parts.
hash_empty : before_hash [] ≡ []
unfolding before_hash
hash_empty = refl

hash_here : (ch : ℕ) (s : Bytes) → (ch == b'#') ≡ true → before_hash (ch ∷ s) ≡ []
unfolding before_hash
hash_here ch s r = rw (before_hash, r) refl

hash_later : (ch : ℕ) (s : Bytes) → (ch == b'#') ≡ false → before_hash (ch ∷ s) ≡ ch ∷ before_hash s
unfolding before_hash
hash_later ch s r = rw (before_hash, r) refl

question_none : length (before_question []) ≡ 0
unfolding before_question
question_none = refl

question_here : (ch : ℕ) (s : Bytes) → (ch == b'?') ≡ true → length (before_question (ch ∷ s)) ≡ 0
unfolding before_question
question_here ch s q = rw (before_question, q) refl

question_later :
    (ch : ℕ) (s : Bytes)
    → (ch == b'?') ≡ false
    → length (before_question (ch ∷ s)) ≡ suc (length (before_question s))
unfolding before_question
question_later ch s q = rw (before_question, q) refl

question_not_hash : (ch : ℕ) → (ch == b'?') ≡ true → (ch == b'#') ≡ false
question_not_hash ch q = ground (arith, q)

finish-2 :
    (s : Bytes) (u : UrlInfo) (a b c : ℕ)
    → all_url_bytes s ≡ true
    → u.fpos ≡ 2
    → u.f0 ≡ (0, a)
    → u.f1 ≡ (a, b)
    → c ≡ u.pos + length s
    → c < 2 ^ 32
    → Fields (finish (url_loop s u)) a b c
finish-2 [] u a b c h e f g k l = rw (url_loop-nil u) (end-2 u a b c e f g (omega arith))
finish-2 (ch ∷ s) u a b c h e f g k l =
    rw (url_loop-next ch s u (next_byte u) (step-2 ch u (bytes_head ch s h).0 e))
      (finish-2 s (next_byte u) a b c (bytes_head ch s h).1 e f g (omega arith) l)

finish-1 :
    (s : Bytes) (u : UrlInfo) (a b c : ℕ)
    → all_url_bytes s ≡ true
    → u.fpos ≡ 1
    → u.f0 ≡ (0, a)
    → b ≡ u.pos + length (before_hash s)
    → c ≡ u.pos + length s
    → c < 2 ^ 32
    → Fields (finish (url_loop s u)) a b c
finish-1 [] u a b c h e f g k l =
    let same : b ≡ c = omega (arith, rw hash_empty at g) in
    rw (url_loop-nil u, same) (end-1 u a c e f (omega arith))
finish-1 (ch ∷ s) u a b c h e f g k l = elim (Bool-cases (ch == b'#')) [
  | inl r ↦
      let u' = next_byte (record u { f1 = (u.f0.1, at u); fpos = 2 }) in
      let step : url_step ch u ≡ some u' = rw r at (step-1 ch u (bytes_head ch s h).0 e) in
      let here : b ≡ at u = omega (arith, ap (λ x. length x) (hash_here ch s r)) in
      rw (url_loop-next ch s u u' step)
        (finish-2 s u' a b c (bytes_head ch s h).1 refl f (rw (f, here) refl) (omega arith) l)
  | inr r ↦
      let step : url_step ch u ≡ some (next_byte u) =
        rw r at (step-1 ch u (bytes_head ch s h).0 e) in
      rw (url_loop-next ch s u (next_byte u) step) (
        finish-1 s (next_byte u) a b c (bytes_head ch s h).1 e f
          (omega (arith, ap (λ x. length x) (hash_later ch s r))) (omega arith) l)
]

pub finish-0 :
    (s : Bytes) (u : UrlInfo) (a b c : ℕ)
    → all_url_bytes s ≡ true
    → u.fpos ≡ 0
    → a ≡ u.pos + length (before_question (before_hash s))
    → b ≡ u.pos + length (before_hash s)
    → c ≡ u.pos + length s
    → c < 2 ^ 32
    → Fields (finish (url_loop s u)) a b c
finish-0 [] u a b c h e f g k l =
    let same : a ≡ c = omega (arith, question_none, rw hash_empty at f) in
    let same' : b ≡ c = omega (arith, rw hash_empty at g) in
    rw (url_loop-nil u, same, same') (end-0 u c e (omega arith))
finish-0 (ch ∷ s) u a b c h e f g k l = elim (Bool-cases (ch == b'?')) [
  | inl q ↦
      let rest = hash_later ch s (question_not_hash ch q) in
      let first : a ≡ at u = omega (arith, rw rest at f, question_here ch (before_hash s) q) in
      let u' = next_byte (record u { f0 = (0, at u); fpos = 1 }) in
      let step : url_step ch u ≡ some u' = rw q at (step-0 ch u (bytes_head ch s h).0 e) in
      rw (url_loop-next ch s u u' step) (
        finish-1 s u' a b c (bytes_head ch s h).1 refl (rw first refl) (omega (arith, rw rest at g))
          (omega arith) l)
  | inr q ↦ elim (Bool-cases (ch == b'#')) [
    | inl r ↦
        let first : a ≡ at u = omega (arith, rw (hash_here ch s r) at f, question_none) in
        let second : b ≡ at u = omega (arith, rw (hash_here ch s r) at g) in
        let u' = next_byte (record u { f0 = (0, at u); f1 = (at u, at u); fpos = 2 }) in
        let step : url_step ch u ≡ some u' = rw (q, r) at (step-0 ch u (bytes_head ch s h).0 e) in
        rw (url_loop-next ch s u u' step) (
          finish-2 s u' a b c (bytes_head ch s h).1 refl (rw first refl) (rw (first, second) refl)
            (omega arith) l)
    | inr r ↦
        let rest = hash_later ch s r in
        let step : url_step ch u ≡ some (next_byte u) =
          rw (q, r) at (step-0 ch u (bytes_head ch s h).0 e) in
        rw (url_loop-next ch s u (next_byte u) step) (
          finish-0 s (next_byte u) a b c (bytes_head ch s h).1 e
            (omega (arith, rw rest at f, question_later ch (before_hash s) q))
            (omega (arith, rw rest at g)) (omega arith) l)
  ]
]

-- A byte that may not stand in a URL.
url_loop-fail :
    (ch : ℕ) (s : Bytes) (u : UrlInfo) → url_step ch u ≡ none → url_loop (ch ∷ s) u ≡ failed u
unfolding url_loop
url_loop-fail ch s u e = rw (url_loop, e) refl

pub loop-fails :
    (s : Bytes) (u : UrlInfo)
    → all_url_bytes s ≡ false
    → ((url_loop s u).fpos ≡ 0) × ((url_loop s u).pos ≡ 0)
unfolding all_url_bytes
loop-fails [] u h = cc
loop-fails (ch ∷ s) u h = elim (Option-cases (url_step ch u)) [
  | inl e ↦ rw (url_loop-fail ch s u e) (refl, refl)
  | inr (u', e) ↦ elim (Bool-cases (is_url_byte ch)) [
    | inl b ↦ rw (url_loop-next ch s u u' e) (loop-fails s u' (rw (all_url_bytes, b) at h))
    | inr b ↦ absurd (cc (step-none ch u b, e))
  ]
]
