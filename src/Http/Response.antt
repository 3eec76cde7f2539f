-- ===== src/Http/Response.antt =====
-- librestserver/response.c, response.h and statuscode.h.
pub mod Text
pub mod Length
use librestserver.Libc.{Block, literal, strlen, print_int}
use librestserver.Util.Num.{CString}
use librestserver.Util.Free.{free_string, run_calls}
use librestserver.Util.Map.{Table}
use librestserver.Util.Map
use librestserver.Util.StringBuilder.{
  StringBuilder, alloc_string, append, append_n, append_int, append_char, append_builder,
}
use librestserver.Util.StringBuilder
use librestserver.Http.Request.{Request, string_map}
use Prim.Native.String.{String}
use librestserver.Prelude.{
  ℕ, zero, suc, true, false, none, some, List, [], ◌∷◌, ◌++◌, null_pointer, no_progress, Result, ok,
  err, ◌>>=◌, ℤ, pos, to_int,
}

pub record Response : Type 0 where
  pub http_major : ℕ
  pub http_minor : ℕ
  pub status_code : ℤ
  pub status_message : CString
  pub headers : Table CString
  pub body : StringBuilder

-- RST_StatusCodes
pub data StatusCode : Type 0 where
  processing okay bad_request unauthorized forbidden not_found : StatusCode

abbrev pub code_of : StatusCode → ℤ
code_of processing = pos 102
code_of okay = pos 200
code_of bad_request = pos 400
code_of unauthorized = pos 401
code_of forbidden = pos 403
code_of not_found = pos 404

-- The status code is not set: the field holds the zeros of the allocator's pool.
unfoldable pub init : Result Response
unfolding StringBuilder.init string_map
init = do
  body ← StringBuilder.init
  ok (record {
    http_major = 0;
    http_minor = 0;
    status_code = pos 0;
    status_message = none;
    headers = string_map;
    body = body;
  })

unfoldable pub version_from_request : Response → Request → Response
version_from_request r q = record r { http_major = q.http_major; http_minor = q.http_minor }

-- RST_alloc_string on the pointer's text; a null pointer is a fault.
unfoldable pub copy_string : CString → Result CString
unfolding alloc_string
copy_string none = err null_pointer
copy_string (some s) = do t ← alloc_string s; ok (some t)

unfoldable pub set_status_message : Response → CString → Result Response
unfolding copy_string
set_status_message r msg = do m ← copy_string msg; ok (record r { status_message = m })

unfoldable pub set_header : Response → CString → CString → Result Response
unfolding copy_string Map.insert
set_header r name value = do
  k ← copy_string name
  v ← copy_string value
  headers ← Map.insert r.headers k v
  ok (record r { headers = headers })

-- The header is the length of the whole body; it is inserted, so an older one stays.
unfoldable pub set_body_n : Response → Block → ℕ → Result Response
unfolding append_n copy_string Map.insert print_int
set_body_n r body len = do
  b ← append_n r.body body len
  k ← copy_string (some (literal "Content-Length"))
  v ← copy_string (some (print_int (to_int b.len) ++ (0 ∷ [])))
  headers ← Map.insert r.headers k v
  ok (record r { body = b; headers = headers })

unfoldable pub set_body : Response → Block → Result Response
unfolding strlen set_body_n
set_body r body = do n ← strlen body; set_body_n r body n

-- `message == NULL ? default : message`
abbrev pub message_or : CString → String → CString
message_or none default = some (literal default)
message_or (some m) default = some m

unfoldable pub set_error : StatusCode → String → Response → Request → CString → Result Response
unfolding set_status_message version_from_request set_body
set_error status default r q message = do
  s ← set_status_message (record r { status_code = code_of status }) (message_or message default)
  set_body (version_from_request s q) (literal "")

unfoldable pub set_not_found : Response → Request → CString → Result Response
unfolding set_error
set_not_found = set_error not_found "Not found"

unfoldable pub init_not_found : Request → CString → Result Response
unfolding init set_not_found
init_not_found q message = do r ← init; set_not_found r q message

unfoldable pub set_bad_request : Response → Request → CString → Result Response
unfolding set_error
set_bad_request = set_error bad_request "Bad request"

unfoldable pub init_bad_request : Request → CString → Result Response
unfolding init set_bad_request
init_bad_request q message = do r ← init; set_bad_request r q message

unfoldable pub append_header : StringBuilder → CString → CString → Result StringBuilder
unfolding append
append_header sb key value = do
  a ← append sb key
  b ← append a (some (literal ": "))
  c ← append b value
  append c (some (literal "\r\n"))

-- The loop over the headers, from index `k` on; each round passes one pair.
unfoldable pub append_headers : ℕ → Table CString → ℕ → StringBuilder → Result StringBuilder
unfolding Map.end Map.value Map.next append_header
append_headers zero m k sb = err no_progress
append_headers (suc fuel) m k sb = elim (Map.end m k) [
  | true ↦ ok sb
  | false ↦ Map.value m k >>= (λ (p : CString × CString).
      append_header sb p.0 p.1 >>= λ t. append_headers fuel m (Map.next k) t)
]

unfoldable pub append_status_line : StringBuilder → Response → Result StringBuilder
unfolding append append_int append_char
append_status_line sb r = do
  a ← append sb (some (literal "HTTP/"))
  b ← append_int a (pos r.http_major)
  c ← append_char b b'.'
  d ← append_int c (pos r.http_minor)
  e ← append_char d b' '
  f ← append_int e r.status_code
  g ← append_char f b' '
  h ← append g r.status_message
  append h (some (literal "\r\n"))

unfoldable pub to_string : Response → Result StringBuilder
unfolding StringBuilder.init append_status_line append_headers append append_builder
to_string r = do
  sb ← StringBuilder.init
  a ← append_status_line sb r
  b ← append_headers (suc r.headers.v.size) r.headers 0 a
  c ← append b (some (literal "\r\n"))
  append_builder c (some r.body)

-- The body's builder and the response itself were allocated by RST_response_init.
unfoldable pub release : Response → Result (Unit {0})
unfolding free_string Map.release run_calls
release r = do
  freed ← free_string r.status_message
  headers ← Map.release r.headers
  run_calls headers
