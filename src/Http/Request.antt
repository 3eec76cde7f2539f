-- ===== src/Http/Request.antt =====
-- librestserver/request.c and request.h.
use librestserver.Util.Num.{CString, cstr_comparator}
use librestserver.Util.Vector.{cstr_dtor}
use librestserver.Util.Free.{run_calls}
use librestserver.Util.Map.{Table}
use librestserver.Util.Map
use librestserver.Util.StringBuilder.{StringBuilder}
use librestserver.Util.StringBuilder
use librestserver.Parser.State.{Method, delete}
use librestserver.Prelude.{
  ℕ, Bool, false, none, some, uninitialized, Result, ok, ◌>>=◌, from_option,
}

pub record Request : Type 0 where
  pub headers : Table CString
  pub method : Method
  pub http_major : ℕ
  pub http_minor : ℕ
  pub upgrade_websocket : Bool
  pub query_params : Table CString
  pub url : StringBuilder
  pub body : StringBuilder
  pub path : CString
  pub from_socket : ℕ

-- The maps of a request own their keys and values.
unfoldable pub string_map : Table CString
unfolding Map.init
string_map = Map.init cstr_comparator (some cstr_dtor) (some cstr_dtor)

-- The fields that RST_request_init leaves alone hold the zeros of the allocator's pool.
unfoldable pub init : Result Request
unfolding string_map StringBuilder.init
init = do
  body ← StringBuilder.init
  url ← StringBuilder.init
  ok (record {
    headers = string_map;
    method = delete;
    http_major = 0;
    http_minor = 0;
    upgrade_websocket = false;
    query_params = string_map;
    url = url;
    body = body;
    path = none;
    from_socket = 0;
  })

-- The result of the search is ignored: where the key is absent, the value returned was never set.
unfoldable pub get_header_value : Request → CString → Result CString
unfolding Map.find
get_header_value r key = do found ← Map.find r.headers key; from_option found uninitialized

unfoldable pub get_query_param : Request → CString → Result CString
unfolding Map.find
get_query_param r key = do
  found ← Map.find r.query_params key
  ok (elim found [ none ↦ none | some value ↦ value ])

-- The builders were allocated by RST_request_init, and the path is freed only where it is set.
unfoldable pub release : Request → Result (Unit {0})
unfolding Map.release run_calls
release r = do
  headers ← Map.release r.headers
  freed ← run_calls headers
  params ← Map.release r.query_params
  run_calls params
