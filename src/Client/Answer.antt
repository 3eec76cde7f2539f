-- ===== src/Client/Answer.antt =====
-- RST_client_parser_on_message_complete: the request is routed and answered.
pub mod Routing
pub mod Complete
pub mod Parsed
pub mod Targets
pub mod Strings
pub mod Reply
use librestserver.Libc.{strcmp, offset}
use librestserver.Util.Vector.{Vector, Iterator, value, next, begin, end}
use librestserver.Util.StringBuilder.{StringBuilder, alloc_string_n}
use librestserver.Http.Request.{Request}
use librestserver.Http.Response.{Response, to_string, init_bad_request}
use librestserver.Http.Response
use librestserver.Http.Resource.{Resource, handle_request}
use librestserver.Http.Query.{parse_query_string}
use librestserver.Parser.State.{Parser, Settings, Method, get, post, put, delete}
use librestserver.Parser.Url.{parse_url}
use librestserver.Server.Send.{send}
use librestserver.Client.State.{Client, Site, Session}
use librestserver.Client.Collect.{save_header, on_header_field, on_header_value, on_url, on_body}
use librestserver.Prelude.{
  ℕ, zero, suc, Bool, true, false, Option, none, some, ◌==◌, if◌then◌else◌, null_pointer,
  no_progress, Result, ok, err, ◌>>=◌, from_option, is_zero,
}

abbrev pub same_method : Method → Method → Bool
same_method get get = true
same_method post post = true
same_method put put = true
same_method delete delete = true
same_method _ _ = false

-- res->method == request->method && strcmp(res->path, request->path) == 0
unfoldable pub matches : Resource → Request → Result Bool
unfolding strcmp
matches r q =
    if same_method r.method q.method
    then (from_option q.path null_pointer >>= λ path. strcmp r.path path >>= λ z. ok (is_zero z))
    else ok false

-- The loop of RST_service_find_resource.
unfoldable pub find_from : ℕ → Vector Resource → Request → Iterator → Result (Option Resource)
unfolding end value next matches
find_from zero v q it = err no_progress
find_from (suc fuel) v q it = elim (end v it) [
  | true ↦ ok none
  | false ↦ value v it >>= (λ r.
      matches r q >>= λ hit. elim hit [ true ↦ ok (some r) | false ↦ find_from fuel v q (next it) ])
]

unfoldable pub find_resource : Site → Request → Result (Option Resource)
unfolding find_from begin
find_resource site q = find_from (suc site.resources.size) site.resources q begin

-- `qlen != 0 && !RST_request_parse_query_string(…)` is the flag, negated.
unfoldable pub parse_query : Request → ℕ → ℕ → Result (Request × Bool)
unfolding offset parse_query_string
parse_query q qoff qlen =
    if qlen == 0
    then ok (q, true)
    else (offset q.url.buf qoff >>= λ rest. parse_query_string q.query_params rest qlen >>= λ r.
        ok (record q { query_params = r.0 }, r.1))

-- The path, the method and the version of the request.
unfoldable pub complete_request : Request → Parser → ℕ → Result Request
unfolding alloc_string_n
complete_request q p plen = do
  path ← alloc_string_n q.url.buf plen
  ok (record q {
    method = p.method;
    http_major = p.http_major;
    http_minor = p.http_minor;
    path = some path;
  })

-- `taken` is what send() takes of a response.
module _ (site : Site) (taken : ℕ → Option ℕ) where
  -- RST_client_send_sb_async
  unfoldable pub send_sb : Session → StringBuilder → Result Session
  unfolding send
  send_sb s sb = do
    server ← send s.server (taken s.client.socket) s.client.socket sb.buf sb.len
    ok (record s { server = server })

  -- The response as text becomes the client's buffer, the response is released, and the text is sent.
  unfoldable pub send_response : Session → Response → Result Session
  unfolding to_string Response.release send_sb
  send_response s r = do
    sb ← to_string r
    released ← Response.release r
    send_sb (record s { client = record (s.client) { response_buffer = some sb } }) sb

  unfoldable pub handle_resource : Session → Resource → Result Session
  unfolding handle_request send_response
  handle_resource s r = do response ← handle_request r s.client.request; send_response s response

  -- scheduled_generic_handle; a service without a generic handler calls a null pointer.
  unfoldable pub handle_generic : Session → Result Session
  unfolding Response.init send_response
  handle_generic s = do
    fresh ← Response.init
    handler ← from_option site.generic_handler null_pointer
    response ← handler s.client.request fresh
    send_response s response

  unfoldable pub answer_bad_request : Session → Result Session
  unfolding init_bad_request send_response
  answer_bad_request s = do
    response ← init_bad_request s.client.request none
    send_response s response

  unfoldable pub route : Session → Result Session
  unfolding find_resource handle_generic handle_resource
  route s = do
    found ← find_resource site s.client.request
    elim found [ none ↦ handle_generic s | some r ↦ handle_resource s r ]

  unfoldable pub on_message_complete : Parser → Session → Result Session
  unfolding save_header parse_url complete_request parse_query answer_bad_request route
  on_message_complete p s = do
    c ← save_header s.client
    parts ← parse_url c.request.url.buf c.request.url.len
    q ← complete_request c.request p parts.plen
    r ← parse_query q parts.qoff parts.qlen
    let t = record s { client = record c { request = r.0 } }
    if r.1 then route t else answer_bad_request t

  -- A callback of the client alone, on the session.
  abbrev pub on_client : (Client → Result Client) → Session → Result Session
  on_client f s = do c ← f s.client; ok (record s { client = c })

  unfoldable pub settings : Settings Session
  unfolding on_message_complete on_url on_header_field on_header_value on_body
  settings = record {
    on_message_begin = λ p s. ok s;
    on_url = λ at. on_client (on_url at);
    on_header_field = λ at. on_client (on_header_field at);
    on_header_value = λ at. on_client (on_header_value at);
    on_headers_complete = λ p s. ok s;
    on_body = λ at. on_client (on_body at);
    on_message_complete = on_message_complete;
  }
