-- ===== src/Http/Lines.antt =====
-- One line of the header buffer of cotamer/http.cc, `key: value`, and its positions.
use cs2620_s26_psets.Base.{
  ℕ, ◌+◌, ◌%◌, ◌^◌, ◌<◌, ◌≡◌, refl, List, [], ◌∷◌, ◌++◌, arith, length, All, All-append,
  length-append, append_assoc, All-map_of,
}
use cs2620_s26_psets.Bytes.{Bytes, codes}
use cs2620_s26_psets.Http.Message.{KvOffsets, HttpMessage, name_of, value_of, offsets}
use cs2620_s26_psets.Http.Views.{
  Fits, views, pair_of, view_of-middle, Fits-extend, views-extend, views-append,
}

abbrev pub line : Bytes → Bytes → Bytes → Bytes
line key value post = key ++ (codes ": " ++ (value ++ post))

abbrev pub line_offsets : Bytes → Bytes → Bytes → KvOffsets
line_offsets base key value =
    offsets (length base) (length base + length key) (length base + length key + 2)
      (length base + length key + 2 + length value)

pub small : (a : ℕ) → a < 2 ^ 32 → a % 2 ^ 32 ≡ a
small a l = omega arith

pub line_assoc :
    (base key s : Bytes) → base ++ (key ++ (codes ": " ++ s)) ≡ (base ++ (key ++ codes ": ")) ++ s
line_assoc base key s =
    rw (append_assoc base (key ++ codes ": ") s, append_assoc key (codes ": ") s) refl

pub length-start :
    (base key : Bytes) → length (base ++ (key ++ codes ": ")) ≡ length base + length key + 2
length-start base key =
    rw (length-append base (key ++ codes ": "), length-append key (codes ": ")) (omega arith)

-- The views of a line are its key and its value.
pub line-pair :
    (base key value post : Bytes)
    → length base + length key + 2 + length value < 2 ^ 32
    → pair_of (base ++ line key value post) (line_offsets base key value) ≡ (key, value)
line-pair base key value post b = rw (name_lem, value_lem) refl
  where
    name_lem : name_of (base ++ line key value post) (line_offsets base key value) ≡ key
    name_lem =
        rw (small (length base) (omega arith), small (length base + length key) (omega arith))
          (view_of-middle base key (codes ": " ++ (value ++ post)) (omega arith))

    value_lem : value_of (base ++ line key value post) (line_offsets base key value) ≡ value
    value_lem =
        rw
          (
            small (length base + length key + 2) (omega arith),
            small (length base + length key + 2 + length value) b,
            line_assoc base key (value ++ post),
          )
          (rw (length-start base key) at (
            view_of-middle (base ++ (key ++ codes ": ")) value post
              (omega (arith, length-start base key))))

pub length-line :
    (base key value post : Bytes)
    → length (base ++ line key value post)
      ≡ length base + length key + 2 + length value + length post
length-line base key value post =
    rw
      (
        line_assoc base key (value ++ post),
        length-append (base ++ (key ++ codes ": ")) (value ++ post),
        length-start base key,
        length-append value post,
      )
      (omega arith)

line-Fits :
    (base key value post : Bytes)
    → length base + length key + 2 + length value < 2 ^ 32
    → Fits (base ++ line key value post) (line_offsets base key value)
line-Fits base key value post b = record {
  name_order = omega arith;
  name_end = omega (arith, length-line base key value post);
  value_order = omega arith;
  value_end = omega (arith, length-line base key value post);
}

-- The positions of a message are right, and the buffer is short enough for them.
pub record IsIndexed (m : HttpMessage) : Type 0 where
  pub fit : All (Fits m.headers) m.hpairs
  pub small_buffer : length m.headers < 2 ^ 32

abbrev pub header_list : HttpMessage → List (Bytes × Bytes)
header_list m = views m.headers m.hpairs

-- One more line.
abbrev pub with_line : Bytes → Bytes → Bytes → HttpMessage → HttpMessage
with_line key value post m = record m {
  headers = m.headers ++ line key value post;
  hpairs = m.hpairs ++ (line_offsets m.headers key value ∷ []);
}

pub with_line-header_list :
    (key value post : Bytes) (m : HttpMessage)
    → IsIndexed m
    → length m.headers + length key + 2 + length value < 2 ^ 32
    → header_list (with_line key value post m) ≡ header_list m ++ ((key, value) ∷ [])
with_line-header_list key value post m h b =
    rw
      (
        views-append (m.headers ++ line key value post) m.hpairs
            (line_offsets m.headers key value ∷ []),
        views-extend m.headers (line key value post) m.hpairs h.fit h.small_buffer,
        line-pair m.headers key value post b,
      )
      refl

pub with_line-IsIndexed :
    (key value post : Bytes) (m : HttpMessage)
    → IsIndexed m
    → length m.headers + length key + 2 + length value + length post < 2 ^ 32
    → IsIndexed (with_line key value post m)
with_line-IsIndexed key value post m h b = record {
  fit =
      All-append (Fits (m.headers ++ line key value post)) m.hpairs
        (line_offsets m.headers key value ∷ [])
        (All-map_of m.hpairs (λ p f. Fits-extend m.headers (line key value post) p f) h.fit)
        (line-Fits m.headers key value post (omega arith), tt);
  small_buffer = omega (arith, length-line m.headers key value post);
}
