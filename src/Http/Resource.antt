-- ===== src/Http/Resource.antt =====
-- librestserver/resource.c, resource.h and websocket.h. A handler is the user's code: what it
-- makes of the response it is given (it is taken not to write to the request).
use librestserver.Libc.{Block}
use librestserver.Parser.State.{Method, get}
use librestserver.Http.Request.{Request}
use librestserver.Http.Response.{Response}
use librestserver.Http.Response
use librestserver.Prelude.{ℕ, Option, none, some, Result, ok, ◌>>=◌}

abbrev pub Handler : Type 0
Handler = Request → Response → Result Response

-- The user's functions of a web socket, by name: the library stores them and never calls them.
pub record ResourceWebSocket : Type 0 where
  pub on_open : ℕ
  pub on_message : ℕ
  pub on_close : ℕ

pub record Resource : Type 0 where
  pub path : Block
  pub method : Method
  pub callback : Handler
  pub websocket : Option ResourceWebSocket

-- The `websocket` field is not set: it holds the zeros of the allocator's pool.
unfoldable pub init : Block → Method → Handler → Resource
init path method callback = record {
  path = path;
  method = method;
  callback = callback;
  websocket = none;
}

-- _websocket_connection_callback
unfoldable pub connection_callback : Handler
connection_callback q r = ok r

unfoldable pub websocket_init : Block → ℕ → ℕ → ℕ → Resource
unfolding connection_callback
websocket_init path on_open on_message on_close = record {
  path = path;
  method = get;
  callback = connection_callback;
  websocket = some (record { on_open = on_open; on_message = on_message; on_close = on_close });
}

unfoldable pub handle_request : Resource → Request → Result Response
unfolding Response.init
handle_request r q = do response ← Response.init; r.callback q response
