-- ===== src/Service.antt =====
-- librestserver/service.c and service.h: the service owns the clients and the resources, and is the
-- owner of the server whose callbacks it installs.
pub mod Lifecycle
pub mod Accepted
pub mod Requests
pub mod Exchange
pub mod Whole
pub mod Queries
pub mod Split
pub mod Second
pub mod Arrival
pub mod Departure
use librestserver.Libc.{Block, read_byte}
use librestserver.Util.Num.{int_comparator}
use librestserver.Util.Vector.{Vector, Call, element, client_release, resource_release, push_back}
use librestserver.Util.Vector
use librestserver.Util.Map.{Table}
use librestserver.Util.Map
use librestserver.Http.Resource.{Resource, Handler}
use librestserver.Parser.State.{Parser}
use librestserver.Parser.Execute.{execute}
use librestserver.Server.State.{Server, Idle, Callbacks}
use librestserver.Server.State
use librestserver.Client.State.{Client, Site}
use librestserver.Client.State as ClientState
use librestserver.Client.Answer.{settings}
use librestserver.Prelude.{
  ℕ, ◌+◌, Bool, true, false, Option, none, some, List, [], ◌∷◌, ◌++◌, ◌==◌, if◌then◌else◌, length,
  get_elem?, set, out_of_bounds, uninitialized, null_pointer, assertion, exited, Result, ok, err,
  ◌>>=◌, ◌>>◌, from_option,
}

-- A client with its parser, at an address: `none` once it was released.
abbrev pub Connection : Type 0
Connection = Option (Client × Parser)

-- RST_Service without its server. `clients` maps sockets to addresses, which are indices into
-- `connections`.
pub record Service : Type 0 where
  pub port : ℕ
  pub site : Site
  pub clients : Table ℕ
  pub connections : List Connection

-- RST_service_init; the generic handler is not set, and so null in the allocator's pool.
unfoldable pub init : ℕ → Service × Idle
unfolding Map.init Vector.init State.init
init port = (
  record {
    port = port;
    site = record { resources = Vector.init (some resource_release); generic_handler = none };
    clients = Map.init int_comparator none (some client_release);
    connections = [];
  },
  State.init port,
)

unfoldable pub publish : Service → Resource → Result Service
unfolding push_back
publish s r = do
  v ← push_back s.site.resources r
  ok (record s { site = record (s.site) { resources = v } })

unfoldable pub publish_generic_handler : Service → Handler → Service
publish_generic_handler s h = record s { site = record (s.site) { generic_handler = some h } }

-- The client and its parser at an address.
unfoldable pub connection_at : Service → ℕ → Result (Client × Parser)
connection_at s at = do
  slot' ← from_option (get_elem? s.connections at) out_of_bounds
  from_option slot' uninitialized

-- What the map's value destructor, RST_client_release, does at the address that it gets.
unfoldable pub release_connection : Service → ℕ → Result Service
unfolding connection_at ClientState.release
release_connection s at = do
  c ← connection_at s at
  released ← ClientState.release c.0
  ok (record s { connections = set s.connections at none })

-- The destructor calls of RST_map_erase on the clients.
unfoldable pub release_called : Service → List (Call ℕ) → Result Service
unfolding release_connection
release_called s [] = ok s
release_called s ((client_release, element at) ∷ calls) = do
  t ← release_connection s at
  release_called t calls
release_called s (call ∷ calls) = release_called s calls

-- A byte 0x7C at the start of a packet ends the program.
abbrev pub exit_byte : ℕ
exit_byte = 0x7C

-- The send() of a response takes `taken` bytes; the loop of the parser runs on `fuel`.
module _ (taken : ℕ → Option ℕ) (fuel : ℕ) where
  unfoldable pub on_client_accepted : Server → Service → ℕ → Result (Server × Service × Bool)
  unfolding ClientState.init Map.insert
  on_client_accepted server s sock = do
    c ← ClientState.init sock
    clients ← Map.insert s.clients sock (length s.connections)
    ok (server, record s { clients = clients; connections = s.connections ++ (some c ∷ []) }, false)

  -- The parser with its callbacks, on the client's session.
  unfoldable pub feed :
      Server → Service → ℕ → Block → Client × Parser → Result (Server × Service × Bool)
  unfolding execute settings
  feed server s at buf c = do
    r ←
        execute (settings s.site taken) fuel c.1 buf (length buf)
          (record { client = c.0; server = server })
    ok (
      (r.1).server,
      record s { connections = set s.connections at (some ((r.1).client, r.0)) },
      false,
    )

  -- `client` stays null where the socket is unknown.
  unfoldable pub on_data_received : Server → Service → ℕ → Block → Result (Server × Service × Bool)
  unfolding Map.find connection_at read_byte feed
  on_data_received server s sock buf = do
    found ← Map.find s.clients sock
    at ← from_option found null_pointer
    c ← connection_at s at
    first ← read_byte buf 0
    if first == exit_byte then err exited else feed server s at buf c

  -- The response's buffer is released; the field must have been set.
  unfoldable pub on_data_sent : Server → Service → ℕ → Result (Server × Service × Bool)
  unfolding Map.find connection_at Map.erase release_called
  on_data_sent server s sock = do
    found ← Map.find s.clients sock
    at ← from_option found assertion
    c ← connection_at s at
    sb ← from_option (c.0).response_buffer null_pointer
    if (c.0).upgrade_websocket
        then ok (server, s, false)
        else (Map.erase s.clients sock >>= λ (r : Table ℕ × List (Call ℕ)).
            release_called (record s { clients = r.0 }) r.1 >>= λ t. ok (server, t, true))

  unfoldable pub callbacks : Callbacks Service
  unfolding on_client_accepted on_data_received on_data_sent
  callbacks = record {
    on_client_accepted = on_client_accepted;
    on_data_received = on_data_received;
    on_data_sent = on_data_sent;
  }
