-- ===== src/Http/Callbacks.antt =====
-- The callbacks of http_parser in cotamer/http.cc, which llhttp calls.
use cs2620_s26_psets.Base.{
  ℕ, zero, suc, ◌+◌, ◌%◌, ◌^◌, Bool, true, false, ◌&&◌, none, some, [], ◌∷◌, ◌++◌, ltb, ◌==◌,
  if◌then◌else◌, length, get_elem?,
}
use cs2620_s26_psets.Bytes.{Bytes, codes}
use cs2620_s26_psets.Http.Chars.{is_hws}
use cs2620_s26_psets.Http.Message.{HttpMessage, do_clear, offsets}

pub data ParserState : Type 0 where
  state_unknown state_header_name state_header_value state_done : ParserState

-- The three positions are `unsigned`.
pub record MessageData : Type 0 where
  pub hm : HttpMessage
  pub state : ParserState
  pub name1 : ℕ
  pub name2 : ℕ
  pub value1 : ℕ

-- The fields of `llhttp_t` that are read.
pub record ParserStatus : Type 0 where
  pub http_major : ℕ
  pub http_minor : ℕ
  pub status_code : ℕ
  pub method : ℕ
  pub error : ℕ
  pub upgrade : Bool

unfoldable pub copy_parser_status : ParserStatus → MessageData → MessageData
copy_parser_status hp md = record md {
  hm = record md.hm {
    major = hp.http_major;
    minor = hp.http_minor;
    status_code = hp.status_code;
    method = hp.method;
    error = hp.error;
    upgrade = hp.upgrade;
  };
}

unfoldable pub on_message_begin : MessageData → MessageData
unfolding do_clear
on_message_begin md = record md { hm = do_clear md.hm; state = state_unknown }

unfoldable pub on_url : Bytes → MessageData → MessageData
on_url s md = record md { hm = record md.hm { url = md.hm.url ++ s }; state = state_unknown }

unfoldable pub on_status : ParserStatus → Bytes → MessageData → MessageData
unfolding copy_parser_status
on_status hp s md =
    let md' = if md.hm.major == 0 then copy_parser_status hp md else md in
    record md' {
      hm = record md'.hm { status_message = md'.hm.status_message ++ s };
      state = state_unknown;
    }

abbrev pub is_name : ParserState → Bool
is_name state_unknown = false
is_name state_header_name = true
is_name state_header_value = false
is_name state_done = false

abbrev pub is_value : ParserState → Bool
is_value state_unknown = false
is_value state_header_name = false
is_value state_header_value = true
is_value state_done = false

abbrev pub append_text : Bytes → HttpMessage → HttpMessage
append_text s m = record m { headers = m.headers ++ s }

unfoldable pub on_header_field : Bytes → MessageData → MessageData
on_header_field s md =
    let md' =
      if is_name md.state
      then md
      else record md { name1 = length md.hm.headers % 2 ^ 32; state = state_header_name } in
    record md' { hm = append_text s md'.hm }

unfoldable pub on_header_field_complete : MessageData → MessageData
on_header_field_complete md =
    let md' =
      if is_name md.state then md else record md { name1 = length md.hm.headers % 2 ^ 32 } in
    record md' {
      name2 = length md.hm.headers % 2 ^ 32;
      hm = append_text (codes ": ") md.hm;
      value1 = (length md.hm.headers % 2 ^ 32 + 2) % 2 ^ 32;
      state = state_header_value;
    }

unfoldable pub on_header_value : Bytes → MessageData → MessageData
on_header_value s md = record md { hm = append_text s md.hm }

-- `s[i] == ' ' || s[i] == '\t'`.
unfoldable pub hws_at : Bytes → ℕ → Bool
hws_at s i = elim (get_elem? s i) [ none ↦ false | some ch ↦ is_hws ch ]

-- The loop that lowers `v2`.
unfoldable pub trim_end : Bytes → ℕ → ℕ → ℕ
unfolding hws_at
trim_end s value1 zero = zero
trim_end s value1 (suc v2) =
    let rest = trim_end s value1 v2 in if ltb value1 (suc v2) && hws_at s v2 then rest else suc v2

unfoldable pub on_header_value_complete : MessageData → MessageData
unfolding trim_end
on_header_value_complete md =
    let s = md.hm.headers in
    let pair = offsets md.name1 md.name2 md.value1 (trim_end s md.value1 (length s)) in
    let hm' =
      if is_value md.state then record md.hm { hpairs = md.hm.hpairs ++ (pair ∷ []) } else md.hm in
    record md { hm = append_text (codes "\r\n") hm'; state = state_unknown }

unfoldable pub on_headers_complete : ParserStatus → MessageData → MessageData
unfolding copy_parser_status
on_headers_complete hp md = copy_parser_status hp md

unfoldable pub on_body : Bytes → MessageData → MessageData
on_body s md = record md { hm = record md.hm { body = md.hm.body ++ s } }

unfoldable pub on_message_complete : MessageData → MessageData
on_message_complete md = record md { state = state_done }
