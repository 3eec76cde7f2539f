-- ===== src/Json.antt =====
-- librestserver/jsonparser.c, as far as it is written: RST_jsonparser_parse_object stops in the
-- middle, and the parsers of arrays and of numbers have no body. What those return is an argument.
pub mod Strings
use librestserver.Libc.{Block, read_byte, is_digit}
use librestserver.Util.StringBuilder.{StringBuilder, append_char}
use librestserver.Util.StringBuilder
use librestserver.Prelude.{
  ℕ, zero, suc, ◌-◌, Bool, true, false, ◌&&◌, not, Option, none, some, leb, ◌==◌, if◌then◌else◌,
  drop, Result, ok, ◌>>=◌, ◌>>◌,
}

-- RST_JsonToken
pub data Token : Type 0 where
  js_null js_num js_string js_array js_object : Token

-- The union `val`; `D` is the type double, and an object or an array is a pointer.
pub data Member (D : Type 0) : Type 0 where
  jnum : D → Member D
  jstring : StringBuilder → Member D
  jobject : ℕ → Member D
  jarray : ℕ → Member D

pub record JsonValue (D : Type 0) : Type 0 where
  pub token : Token
  pub val : Member D

-- What RST_jsonvalue_release frees besides the value itself; `wrong_member` is a member read as
-- another one's type.
pub data Released : Type 0 where
  nothing builder vector map_of_values wrong_member : Released

-- RST_JsonParser: the text from `pos` on, and the int `len`.
pub record JsonParser : Type 0 where
  pub rest : Block
  pub len : ℕ

module _ {D : Type 0} where
  unfoldable pub init_str : StringBuilder → JsonValue D
  init_str sb = record { token = js_string; val = jstring sb }

  unfoldable pub init_obj : ℕ → JsonValue D
  init_obj obj = record { token = js_string; val = jobject obj }

  unfoldable pub init_num : D → JsonValue D
  init_num num = record { token = js_null; val = jnum num }

  unfoldable pub init_null : D → JsonValue D
  init_null zero_double = record { token = js_null; val = jnum zero_double }

  abbrev pub as_string : Member D → Released
  as_string (jstring sb) = builder
  as_string m = wrong_member

  abbrev pub as_array : Member D → Released
  as_array (jarray a) = vector
  as_array m = wrong_member

  abbrev pub as_object : Member D → Released
  as_object (jobject o) = map_of_values
  as_object m = wrong_member

  unfoldable pub release_as : Token → Member D → Released
  release_as js_null m = nothing
  release_as js_num m = nothing
  release_as js_string m = as_string m
  release_as js_array m = as_array m
  release_as js_object m = as_object m

  unfoldable pub release : JsonValue D → Released
  unfolding release_as
  release v = release_as v.token v.val

-- RST_JSON_PARSER_CONSUME(p, 1), at a byte that was read.
unfoldable pub consume : JsonParser → JsonParser
consume p = record { rest = drop 1 p.rest; len = p.len - 1 }

-- while (len > 0 && *pos == ' '), with the bytes left
unfoldable pub skip_from : ℕ → JsonParser → Result JsonParser
unfolding read_byte consume
skip_from zero p = ok p
skip_from (suc n) p =
    read_byte p.rest 0 >>= (λ c. elim (c == b' ') [ true ↦ skip_from n (consume p) | false ↦ ok p ])

unfoldable pub skip_spaces : JsonParser → Result JsonParser
unfolding skip_from
skip_spaces p = skip_from p.len p

-- What an escape stands for: the byte itself if it is none of the letters.
unfoldable pub unescape : ℕ → ℕ
unescape c =
    if c == b'\\'
    then b'\\'
    else if c == b'n'
    then b'\n'
    else if c == b't'
    then b'\t'
    else if c == b'r'
    then b'\r'
    else c

module _ {D : Type 0} where
  -- The loop of RST_jsonparser_parse_string, with the bytes left; `none` is the return of NULL.
  unfoldable pub string_from :
      ℕ → JsonParser → Bool → StringBuilder → Result (JsonParser × Option (JsonValue D))
  unfolding read_byte consume unescape append_char init_str
  string_from zero p escaped sb = ok (p, none)
  string_from (suc n) p escaped sb = read_byte p.rest 0 >>= (λ c. elim (c == b'"' && not escaped) [
    | true ↦ ok (consume p, some (init_str sb))
    | false ↦ elim (c == b'\\' && not escaped) [
      | true ↦ string_from n (consume p) true sb
      | false ↦
          append_char sb (if escaped then unescape c else c)
          >>= (λ t. string_from n (consume p) false t)
    ]
  ])

  unfoldable pub parse_string : JsonParser → Result (JsonParser × Option (JsonValue D))
  unfolding read_byte string_from StringBuilder.init
  parse_string p = do
    c ← read_byte p.rest 0
    sb ← StringBuilder.init
    if c == b'"' then string_from p.len p false sb else ok (p, none)

  -- The comparison with "null" is made and its result dropped.
  unfoldable pub parse_null : D → JsonParser → Result (JsonParser × Option (JsonValue D))
  unfolding init_null
  parse_null zero_double p =
      if leb 4 p.len
      then ok (record { rest = drop 4 p.rest; len = p.len - 4 }, some (init_null zero_double))
      else ok (p, none)

  module _ (parse_object : JsonParser → Result (JsonParser × Option (JsonValue D)))
      (parse_array : JsonParser → Result (JsonParser × Option (JsonValue D))) where
    -- A digit starts RST_jsonparser_parse_string, too.
    unfoldable pub parse_value : JsonParser → ℕ → Result (JsonParser × Option (JsonValue D))
    unfolding parse_string is_digit
    parse_value p c =
        if c == b'{'
        then parse_object p
        else if c == b'['
        then parse_array p
        else if c == b'"'
        then parse_string p
        else if is_digit c
        then parse_string p
        else ok (p, none)

    unfoldable pub parse_abstract : JsonParser → Result (JsonParser × Option (JsonValue D))
    unfolding skip_spaces read_byte parse_value
    parse_abstract p = do
      q ← skip_spaces p
      if q.len == 0 then ok (q, none) else (read_byte q.rest 0 >>= parse_value q)

    -- RST_json_parse
    unfoldable pub json_parse : Block → ℕ → Result (Option (JsonValue D))
    unfolding parse_abstract skip_spaces
    json_parse buf len =
        parse_abstract (record { rest = buf; len = len })
        >>= λ (r : JsonParser × Option (JsonValue D)). elim (r.1) [
          | none ↦ ok none
          | some v ↦ (skip_spaces r.0 >>= λ q. ok (if q.len == 0 then some v else none))
        ]
