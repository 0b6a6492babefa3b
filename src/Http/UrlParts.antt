-- ===== src/Http/UrlParts.antt =====
-- What the parts of a URL are, for cotamer/http.cc.
use cs2620_s26_psets.Base.{
  ℕ, ◌≡◌, refl, Bool, true, false, ◌&&◌, ◌||◌, [], ◌∷◌, ◌++◌, arith, ◌==◌, if◌then◌else◌, ◌⊎◌,
  Bool-cases, inl, inr,
}
use cs2620_s26_psets.Bytes.{Bytes}
use cs2620_s26_psets.Http.Url.{is_safe}

-- A byte that a URL may have.
unfoldable pub is_url_byte : ℕ → Bool
is_url_byte ch = is_safe ch || (ch == b'?' || ch == b'#')

unfoldable pub all_url_bytes : Bytes → Bool
unfolding is_url_byte
all_url_bytes [] = true
all_url_bytes (ch ∷ s) = is_url_byte ch && all_url_bytes s

-- The text before the first `#`, and from there on.
unfoldable pub before_hash : Bytes → Bytes
before_hash [] = []
before_hash (ch ∷ s) = if ch == b'#' then [] else ch ∷ before_hash s

unfoldable pub from_hash : Bytes → Bytes
from_hash [] = []
from_hash (ch ∷ s) = if ch == b'#' then ch ∷ s else from_hash s

-- The text before the first `?`, and from there on.
unfoldable pub before_question : Bytes → Bytes
before_question [] = []
before_question (ch ∷ s) = if ch == b'?' then [] else ch ∷ before_question s

unfoldable pub from_question : Bytes → Bytes
from_question [] = []
from_question (ch ∷ s) = if ch == b'?' then ch ∷ s else from_question s

pub before-from_hash : (s : Bytes) → before_hash s ++ from_hash s ≡ s
unfolding before_hash from_hash
before-from_hash [] = refl
before-from_hash (ch ∷ s) = ground (arith, before-from_hash s)

pub before-from_question : (s : Bytes) → before_question s ++ from_question s ≡ s
unfolding before_question from_question
before-from_question [] = refl
before-from_question (ch ∷ s) = ground (arith, before-from_question s)

-- `?` and `#` are not safe.
safe_not : (ch : ℕ) → is_safe ch ≡ true → ((ch == b'?') ≡ false) × ((ch == b'#') ≡ false)
unfolding is_safe
safe_not ch h = (ground (arith, h), ground (arith, h))

-- The three kinds of bytes.
abbrev pub Kind : ℕ → Bool → Bool → Bool → Type 0
Kind ch safe question sharp =
    (is_safe ch ≡ safe) × ((ch == b'?') ≡ question) × ((ch == b'#') ≡ sharp)

pub byte_kinds :
    (ch : ℕ)
    → is_url_byte ch ≡ true
    → Kind ch true false false ⊎ (Kind ch false true false ⊎ Kind ch false false true)
unfolding is_url_byte
byte_kinds ch h = elim (Bool-cases (is_safe ch)) [
  | inl s ↦ inl (s, (safe_not ch s).0, (safe_not ch s).1)
  | inr s ↦ elim (Bool-cases (ch == b'?')) [
    | inl q ↦ inr (inl (s, q, ground (arith, q)))
    | inr q ↦ elim (Bool-cases (ch == b'#')) [
      | inl r ↦ inr (inr (s, q, r))
      | inr r ↦ absurd (cc (rw (is_url_byte, s, q, r) at h))
    ]
  ]
]
