-- ===== src/Http/UrlFields.antt =====
-- What make_info of cotamer/http.cc sets the fields of a URL to.
use cs2620_s26_psets.Base.{
  ℕ, ◌-◌, ◌%◌, ◌^◌, ◌≡◌, refl, inl, inr, true, false, none, some, ◌==◌, if◌then◌else◌, Bool-cases,
  ◌∷◌, [],
}
use cs2620_s26_psets.Http.Url.{UrlInfo, set_fields, next_byte, url_step, is_safe, url_loop}
use cs2620_s26_psets.Http.UrlParts.{is_url_byte, byte_kinds, all_url_bytes}
use cs2620_s26_psets.Bytes.{Bytes}

abbrev pub finish : UrlInfo → UrlInfo
finish u = set_fields (3 - u.fpos) u

abbrev pub at : UrlInfo → ℕ
at u = u.pos % 2 ^ 32

pub step-2 :
    (ch : ℕ) (u : UrlInfo) → is_url_byte ch ≡ true → u.fpos ≡ 2 → url_step ch u ≡ some (next_byte u)
unfolding url_step
step-2 ch u h e = elim (byte_kinds ch h) [
  | inl (s, q, r) ↦ rw (url_step, s) refl
  | inr (inl (s, q, r)) ↦ rw (url_step, s, q, e) refl
  | inr (inr (s, q, r)) ↦ rw (url_step, s, q, r, e, set_fields) refl
]

pub step-1 :
    (ch : ℕ) (u : UrlInfo)
    → is_url_byte ch ≡ true
    → u.fpos ≡ 1
    → url_step ch u
      ≡ some (next_byte (if ch == b'#' then record u { f1 = (u.f0.1, at u); fpos = 2 } else u))
unfolding url_step
step-1 ch u h e = elim (byte_kinds ch h) [
  | inl (s, q, r) ↦ rw (url_step, s, r) refl
  | inr (inl (s, q, r)) ↦ rw (url_step, s, q, r, e) refl
  | inr (inr (s, q, r)) ↦ rw (url_step, s, q, r, e, set_fields) refl
]

pub step-0 :
    (ch : ℕ) (u : UrlInfo)
    → is_url_byte ch ≡ true
    → u.fpos ≡ 0
    → url_step ch u
      ≡ some (
          next_byte (
            if ch == b'?'
            then record u { f0 = (0, at u); fpos = 1 }
            else if ch == b'#'
            then record u { f0 = (0, at u); f1 = (at u, at u); fpos = 2 }
            else u))
unfolding url_step
step-0 ch u h e = elim (byte_kinds ch h) [
  | inl (s, q, r) ↦ rw (url_step, s, q, r) refl
  | inr (inl (s, q, r)) ↦ rw (url_step, s, q, e) refl
  | inr (inr (s, q, r)) ↦ rw (url_step, s, q, r, e, set_fields) refl
]

pub step-none : (ch : ℕ) (u : UrlInfo) → is_url_byte ch ≡ false → url_step ch u ≡ none
unfolding url_step is_url_byte
step-none ch u h = elim (Bool-cases (is_safe ch)) [
  | inl s ↦ absurd (cc (rw (is_url_byte, s) at h))
  | inr s ↦ elim (Bool-cases (ch == b'?')) [
    | inl q ↦ absurd (cc (rw (is_url_byte, s, q) at h))
    | inr q ↦ elim (Bool-cases (ch == b'#')) [
      | inl r ↦ absurd (cc (rw (is_url_byte, s, q, r) at h))
      | inr r ↦ rw (url_step, s, q, r) refl
    ]
  ]
]

pub bytes_head :
    (ch : ℕ) (s : Bytes)
    → all_url_bytes (ch ∷ s) ≡ true
    → (is_url_byte ch ≡ true) × (all_url_bytes s ≡ true)
unfolding all_url_bytes
bytes_head ch s h = elim (Bool-cases (is_url_byte ch)) [
  | inl e ↦ (e, rw (all_url_bytes, e) at h)
  | inr e ↦ absurd (cc (rw (all_url_bytes, e) at h))
]

pub url_loop-next :
    (ch : ℕ) (s : Bytes) (u u' : UrlInfo)
    → url_step ch u ≡ some u'
    → url_loop (ch ∷ s) u ≡ url_loop s u'
unfolding url_loop
url_loop-next ch s u u' e = rw (url_loop, e) refl

-- The three fields, which lie side by side.
abbrev pub Fields : UrlInfo → ℕ → ℕ → ℕ → Type 0
Fields u a b c = (u.f0 ≡ (0, a)) × (u.f1 ≡ (a, b)) × (u.f2 ≡ (b, c))

pub end-2 :
    (u : UrlInfo) (a b c : ℕ)
    → u.fpos ≡ 2
    → u.f0 ≡ (0, a)
    → u.f1 ≡ (a, b)
    → u.pos % 2 ^ 32 ≡ c
    → Fields (finish u) a b c
unfolding set_fields
end-2 u a b c e f g h = rw (set_fields, e, f, g, h) (refl, refl, refl)

pub end-1 :
    (u : UrlInfo) (a c : ℕ)
    → u.fpos ≡ 1
    → u.f0 ≡ (0, a)
    → u.pos % 2 ^ 32 ≡ c
    → Fields (finish u) a c c
unfolding set_fields
end-1 u a c e f h = rw (set_fields, e, f, h) (refl, refl, refl)

pub end-0 : (u : UrlInfo) (c : ℕ) → u.fpos ≡ 0 → u.pos % 2 ^ 32 ≡ c → Fields (finish u) c c c
unfolding set_fields
end-0 u c e h = rw (set_fields, e, h) (refl, refl, refl)

pub url_loop-nil : (u : UrlInfo) → url_loop [] u ≡ u
unfolding url_loop
url_loop-nil u = refl
