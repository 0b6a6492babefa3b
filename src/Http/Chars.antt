-- ===== src/Http/Chars.antt =====
-- The character table of cotamer/http.cc, and strings::ieq and strings::trim_hws of
-- cotamer/cotamer_impl.hh.
use cs2620_s26_psets.Base.{
  ℕ, ◌+◌, ◌-◌, Bool, true, false, ◌&&◌, ◌||◌, [], ◌∷◌, leb, ◌==◌, if◌then◌else◌,
}
use cs2620_s26_psets.Bytes.{Bytes, codes}

-- A byte of `chartable.v`: the three flags, and the upper four bits.
pub record CharInfo : Type 0 where
  pub us_safe : Bool
  pub us_http_tchar : Bool
  pub us_hex : Bool
  pub hex_value : ℕ

abbrev pub between : ℕ → ℕ → ℕ → Bool
between first last ch = leb first ch && leb ch last

unfoldable pub occurs_in : ℕ → Bytes → Bool
occurs_in ch [] = false
occurs_in ch (x ∷ xs) = x == ch || occurs_in ch xs

abbrev pub is_letter_to : ℕ → ℕ → ℕ → Bool
is_letter_to first last ch = between first last ch || between (first + 32) (last + 32) ch

unfoldable pub chartable : ℕ → CharInfo
unfolding occurs_in
chartable ch =
    let digit = between b'0' b'9' ch in
    let hex_letter = is_letter_to b'A' b'F' ch in
    let letter = is_letter_to b'G' b'Z' ch in
    let alnum = digit || (hex_letter || letter) in
    record {
      us_safe = alnum || occurs_in ch (codes "!$%&'()*+,-./:;=@[\\]^_`{|}~");
      us_http_tchar = alnum || occurs_in ch (codes "!#$%&'*+-.^_`|~");
      us_hex = digit || hex_letter;
      hex_value =
          if digit
          then ch - b'0'
          else if between b'A' b'F' ch
          then ch - b'A' + 10
          else if between b'a' b'f' ch
          then ch - b'a' + 10
          else 0;
    }

abbrev pub xvalue : ℕ → ℕ
xvalue ch = (chartable ch).hex_value

abbrev pub to_lower : ℕ → ℕ
to_lower ch = if between b'A' b'Z' ch then ch + 32 else ch

-- The loop of `ieq` and its test of the sizes.
unfoldable pub ieq : Bytes → Bytes → Bool
ieq [] [] = true
ieq [] (b ∷ t) = false
ieq (a ∷ s) [] = false
ieq (a ∷ s) (b ∷ t) = to_lower a == to_lower b && ieq s t

abbrev pub is_hws : ℕ → Bool
is_hws ch = ch == b' ' || ch == 9

unfoldable pub trim_front : Bytes → Bytes
trim_front [] = []
trim_front (ch ∷ s) = if is_hws ch then trim_front s else ch ∷ s

-- The loop that removes the last byte as long as it is a blank.
unfoldable pub trim_back : Bytes → Bytes
trim_back [] = []
trim_back (ch ∷ s) = elim (trim_back s) [
  | [] ↦ if is_hws ch then [] else ch ∷ []
  | d ∷ t ↦ ch ∷ d ∷ t
]

unfoldable pub trim_hws : Bytes → Bytes
unfolding trim_front trim_back
trim_hws s = trim_back (trim_front s)
