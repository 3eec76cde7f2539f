-- ===== src/Client/State.antt =====
-- RST_Client, and what its callbacks reach: the service and the server behind it.
use librestserver.Util.Vector.{Vector}
use librestserver.Util.StringBuilder.{StringBuilder}
use librestserver.Http.Request.{Request}
use librestserver.Http.Request
use librestserver.Http.Resource.{Resource, Handler}
use librestserver.Parser.State.{Parser}
use librestserver.Parser.State
use librestserver.Server.State.{Server}
use librestserver.Prelude.{ℕ, Bool, true, false, Option, none, Result, ok, ◌>>=◌}

pub record Client : Type 0 where
  pub socket : ℕ
  pub body_recved : ℕ
  pub parser_last_was_value : Bool
  pub upgrade_websocket : Bool
  pub parser_header_value : Option StringBuilder
  pub parser_header_field : Option StringBuilder
  pub response_buffer : Option StringBuilder
  pub request : Request

-- The part of RST_Service that the callbacks of a client read.
pub record Site : Type 0 where
  pub resources : Vector Resource
  pub generic_handler : Option Handler

-- What a callback acts on: the client, and the server that the response goes to.
pub record Session : Type 0 where
  pub client : Client
  pub server : Server

-- RST_client_init; the parser is returned beside the client that its `data` field points to.
unfoldable pub init : ℕ → Result (Client × Parser)
unfolding Request.init State.init
init socket = do
  request ← Request.init
  parser ← State.init
  ok (
    record {
      socket = socket;
      body_recved = 0;
      parser_last_was_value = true;
      upgrade_websocket = false;
      parser_header_value = none;
      parser_header_field = none;
      response_buffer = none;
      request = record request { from_socket = socket };
    },
    parser,
  )

-- The request, the parser and the client. The builders of a header that is not saved yet are not
-- released.
unfoldable pub release : Client → Result (Unit {0})
unfolding Request.release
release c = Request.release c.request
