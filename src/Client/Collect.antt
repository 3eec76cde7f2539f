-- ===== src/Client/Collect.antt =====
-- The callbacks that collect the request: the url, the headers and the body.
pub mod Headers
pub mod Message
pub mod Lookup
use librestserver.Libc.{Block}
use librestserver.Util.Num.{CString}
use librestserver.Util.Map
use librestserver.Util.StringBuilder.{StringBuilder, append_n, alloc_string_n}
use librestserver.Util.StringBuilder
use librestserver.Client.State.{Client}
use librestserver.Prelude.{
  Bool, true, false, ◌&&◌, ◌||◌, not, Option, none, some, if◌then◌else◌, length, null_pointer,
  assertion, Result, ok, ◌>>=◌, ◌>>◌, guard, from_option,
}

abbrev is_null : {A : Type 0} → Option A → Bool
is_null none = true
is_null (some x) = false

-- A copy of a builder's text.
unfoldable pub copy_of : StringBuilder → Result CString
unfolding alloc_string_n
copy_of sb = do t ← alloc_string_n sb.buf sb.len; ok (some t)

-- The header whose field and value are at hand goes into the request's map.
unfoldable pub save_pair : Client → StringBuilder → StringBuilder → Result Client
unfolding copy_of Map.insert
save_pair c field value = do
  k ← copy_of field
  v ← copy_of value
  headers ← Map.insert c.request.headers k v
  ok (record c {
    request = record (c.request) { headers = headers };
    parser_header_field = none;
    parser_header_value = none;
  })

-- The assertion reads: field and value are both set, or the value is null (tested twice).
unfoldable pub save_header : Client → Result Client
unfolding save_pair
save_header c = do
  guard
      (not (is_null c.parser_header_field) && not (is_null c.parser_header_value)
        || is_null c.parser_header_value && is_null c.parser_header_value)
      assertion
  elim c.parser_header_field [
    | none ↦ ok c
    | some field ↦ elim c.parser_header_value [ none ↦ ok c | some value ↦ save_pair c field value ]
  ]

-- if (parser_last_was_value) { save_header; parser_header_field = init; }
unfoldable pub begin_field : Client → Result Client
unfolding save_header StringBuilder.init
begin_field c =
    if c.parser_last_was_value
    then (save_header c >>= λ d.
        StringBuilder.init >>= λ sb. ok (record d { parser_header_field = some sb }))
    else ok c

unfoldable pub on_header_field : Block → Client → Result Client
unfolding begin_field append_n
on_header_field at c = do
  d ← begin_field c
  field ← from_option d.parser_header_field null_pointer
  sb ← append_n field at (length at)
  ok (record d { parser_header_field = some sb; parser_last_was_value = false })

unfoldable pub begin_value : Client → Result Client
unfolding StringBuilder.init
begin_value c =
    if c.parser_last_was_value
    then ok c
    else (StringBuilder.init >>= λ sb. ok (record c { parser_header_value = some sb }))

unfoldable pub on_header_value : Block → Client → Result Client
unfolding begin_value append_n
on_header_value at c = do
  d ← begin_value c
  value ← from_option d.parser_header_value null_pointer
  sb ← append_n value at (length at)
  ok (record d { parser_header_value = some sb; parser_last_was_value = true })

unfoldable pub on_url : Block → Client → Result Client
unfolding append_n
on_url at c = do
  sb ← append_n c.request.url at (length at)
  ok (record c { request = record (c.request) { url = sb } })

unfoldable pub on_body : Block → Client → Result Client
unfolding append_n
on_body at c = do
  sb ← append_n c.request.body at (length at)
  ok (record c { request = record (c.request) { body = sb } })
