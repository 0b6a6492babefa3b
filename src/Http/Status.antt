-- ===== src/Http/Status.antt =====
-- http_message::default_status_message of cotamer/http.cc.
use cs2620_s26_psets.Base.{
  ℕ, zero, suc, ◌+◌, ◌-◌, ◌/◌, Option, none, some, List, [], ◌∷◌, ltb, ◌==◌, if◌then◌else◌, length,
  get_elem?,
}
use cs2620_s26_psets.Bytes.{Bytes, codes}

pub record StatusCode : Type 0 where
  pub code : ℕ
  pub message : Bytes

abbrev status : ℕ → Bytes → StatusCode
status code message = record { code = code; message = message }

abbrev pub default_status_codes : List StatusCode
default_status_codes =
    status 100 (codes "Continue")
    ∷ status 101 (codes "Switching Protocols")
    ∷ status 102 (codes "Processing")
    ∷ status 103 (codes "Early Hints")
    ∷ status 110 (codes "Early Hints")
    ∷ status 111 (codes "Early Hints")
    ∷ status 112 (codes "Early Hints")
    ∷ status 113 (codes "Early Hints")
    ∷ status 200 (codes "OK")
    ∷ status 201 (codes "Created")
    ∷ status 202 (codes "Accepted")
    ∷ status 203 (codes "Non-Authoritative Information")
    ∷ status 204 (codes "No Content")
    ∷ status 205 (codes "Reset Content")
    ∷ status 206 (codes "Partial Content")
    ∷ status 207 (codes "Multi-Status")
    ∷ status 208 (codes "Already Reported")
    ∷ status 226 (codes "IM Used")
    ∷ status 300 (codes "Multiple Choices")
    ∷ status 301 (codes "Moved Permanently")
    ∷ status 302 (codes "Found")
    ∷ status 303 (codes "See Other")
    ∷ status 304 (codes "Not Modified")
    ∷ status 305 (codes "Use Proxy")
    ∷ status 307 (codes "Temporary Redirect")
    ∷ status 308 (codes "Permanent Redirect")
    ∷ status 400 (codes "Bad Request")
    ∷ status 401 (codes "Unauthorized")
    ∷ status 402 (codes "Payment Required")
    ∷ status 403 (codes "Forbidden")
    ∷ status 404 (codes "Not Found")
    ∷ status 405 (codes "Method Not Allowed")
    ∷ status 406 (codes "Not Acceptable")
    ∷ status 407 (codes "Proxy Authentication Required")
    ∷ status 408 (codes "Request Timeout")
    ∷ status 409 (codes "Conflict")
    ∷ status 410 (codes "Gone")
    ∷ status 411 (codes "Length Required")
    ∷ status 412 (codes "Precondition Failed")
    ∷ status 413 (codes "Content Too Large")
    ∷ status 414 (codes "URI Too Long")
    ∷ status 415 (codes "Unsupported Media Type")
    ∷ status 416 (codes "Range Not Satisfiable")
    ∷ status 417 (codes "Expectation Failed")
    ∷ status 418 (codes "I'm a teapot")
    ∷ status 421 (codes "Misdirected Request")
    ∷ status 422 (codes "Unprocessable Content")
    ∷ status 423 (codes "Locked")
    ∷ status 424 (codes "Failed Dependency")
    ∷ status 425 (codes "Too Early")
    ∷ status 426 (codes "Upgrade Required")
    ∷ status 428 (codes "Precondition Required")
    ∷ status 429 (codes "Too Many Requests")
    ∷ status 431 (codes "Request Header Fields Too Large")
    ∷ status 451 (codes "Unavailable For Legal Reasons")
    ∷ status 500 (codes "Internal Server Error")
    ∷ status 501 (codes "Not Implemented")
    ∷ status 502 (codes "Bad Gateway")
    ∷ status 503 (codes "Service Unavailable")
    ∷ status 504 (codes "Gateway Timeout")
    ∷ status 505 (codes "HTTP Version Not Supported")
    ∷ status 506 (codes "Variant Also Negotiates")
    ∷ status 507 (codes "Insufficient Storage")
    ∷ status 508 (codes "Loop Detected")
    ∷ status 509 (codes "Bandwidth Limit Exceeded")
    ∷ status 510 (codes "Not Extended")
    ∷ status 511 (codes "Network Authentication Required")
    ∷ []

-- The entry at the place found, if it is for this code.
unfoldable pub message_at : (ℕ → Bytes) → ℕ → Option StatusCode → Bytes
message_at other code none = other code
message_at other code (some m) = if m.code == code then m.message else other code

-- `std::lower_bound`, with `m->code`: halving a range [first, first + count) that is known to hold
-- the place, on fuel.
unfoldable pub lower_bound : ℕ → List StatusCode → ℕ → ℕ → ℕ → ℕ
lower_bound zero table first count code = first
lower_bound (suc fuel) table first zero code = first
lower_bound (suc fuel) table first (suc c) code =
    let step = suc c / 2 in
    let right = lower_bound fuel table (first + step + 1) (suc c - (step + 1)) code in
    let left = lower_bound fuel table first step code in
    elim (get_elem? table (first + step)) [
      | none ↦ left
      | some m ↦ if ltb m.code code then right else left
    ]

-- `other` is `llhttp_status_name`.
unfoldable pub default_status_message : (ℕ → Bytes) → ℕ → Bytes
unfolding lower_bound message_at
default_status_message other code =
    let ncodes = length default_status_codes in
    if code == 200
    then codes "OK"
    else message_at other code (
        get_elem? default_status_codes
          (lower_bound (suc ncodes) default_status_codes 0 ncodes code))
