-- ===== src/Tests/Client.antt =====
-- A request collected, routed and answered, at small inputs.
use librestserver.Libc.{Block, codes, find_text}
use librestserver.Libc.Strings.{same_text}
use librestserver.Util.Replace.Dots.{dots}
use librestserver.Http.Response.{Response, set_not_found}
use librestserver.App.{generic_handler, answer_file, max_file_path}
use librestserver.App.Files.{generic_handler-dots}
use librestserver.Util.Num.{int_comparator, int_comparator-Compares}
use librestserver.Util.Vector.{client_release, resource_release}
use librestserver.Util.Vector.Shape.{Holds}
use librestserver.Util.Map
use librestserver.Util.Map.Shape.{lookup, has}
use librestserver.Util.Map.Release.{IsReleasable}
use librestserver.Util.Vector
use librestserver.Parser.State.{Parser, get, delete, start}
use librestserver.Http.Request.{Request, string_map}
use librestserver.Http.Resource.{Resource}
use librestserver.Client.State.{Client, Site}
use librestserver.Client.State as ClientState
use librestserver.Client.Answer.{find_resource}
use librestserver.Client.Answer.Routing.{first_that_serves, find_resource-first}
use librestserver.Client.Collect.{on_header_field, on_header_value, save_header}
use librestserver.Client.Collect.Headers.{
  kept, builder, without_header, with_headers, save_header-joined,
}
use librestserver.Service.{Service, connection_at, on_client_accepted, on_data_sent}
use librestserver.Service.Lifecycle.{Knows, on_client_accepted-fresh, on_data_sent-releases}
use librestserver.Tests.Samples.{in_body}
use librestserver.Tests.Server.{server}
use librestserver.Prelude.{
  ℕ, ◌+◌, ◌≡◌, refl, true, false, Option, none, some, List, [], ◌∷◌, ◌++◌, map, arith, leb, ◌==◌,
  if◌then◌else◌, set, take, Result, ok, ◌>>=◌, pos,
}

abbrev pub request : Request
request = record {
  headers = string_map;
  method = get;
  http_major = 1;
  http_minor = 1;
  upgrade_websocket = false;
  query_params = string_map;
  url = builder (b'/' ∷ b'b' ∷ []);
  body = builder [];
  path = some ((b'/' ∷ b'b' ∷ []) ++ (0 ∷ []));
  from_socket = 5;
}

abbrev pub client : Client
client = record {
  socket = 5;
  body_recved = 0;
  parser_last_was_value = true;
  upgrade_websocket = false;
  parser_header_value = none;
  parser_header_field = none;
  response_buffer = some (builder (b'x' ∷ []));
  request = request;
}

-- Two resources, of which the second serves the request.
abbrev resource : Block → Resource
resource path = record {
  path = path ++ (0 ∷ []);
  method = get;
  callback = λ q r. ok r;
  websocket = none;
}

abbrev resources : List Resource
resources = resource (b'/' ∷ b'a' ∷ []) ∷ resource (b'/' ∷ b'b' ∷ []) ∷ []

abbrev site : Site
site = record {
  resources = record {
    slots = map some resources;
    size = 2;
    capacity = 2;
    destructor = some resource_release;
  };
  generic_handler = none;
}

abbrev path_of : Resource → Block
path_of r = take 2 r.path

site-Holds : Holds site.resources resources
site-Holds = record { unused = []; layout = refl; counted = refl; block = refl; room = omega arith }

find_resource-first_example :
    find_resource site request ≡ ok (first_that_serves path_of resources request (b'/' ∷ b'b' ∷ []))
find_resource-first_example =
    find_resource-first path_of site request (b'/' ∷ b'b' ∷ []) resources site-Holds refl
      (omega arith, (omega arith, tt))
      ((refl, (omega arith, (omega arith, tt))), ((refl, (omega arith, (omega arith, tt))), tt))

save_header-joined_example :
    (on_header_field (codes "Host") (without_header client) >>= λ d.
    on_header_field (codes "Via") d >>= λ e. on_header_value (codes "1") e >>= save_header)
    ≡ (Map.insert client.request.headers (kept (codes "Host" ++ codes "Via")) (kept (codes "1"))
        >>= λ m. ok (without_header (with_headers client m)))
save_header-joined_example = save_header-joined client (codes "Host") (codes "Via") (codes "1")

-- A service that knows the client under the socket 5.
abbrev pub service : Service
service = record {
  port = 8080;
  site = site;
  clients = record {
    v = record { slots = some 5 ∷ some 0 ∷ []; size = 2; capacity = 2; destructor = none };
    comparator = int_comparator;
    key_destructor = none;
    value_destructor = some client_release;
  };
  connections = some (client, in_body 2) ∷ [];
}

pub service-Knows : Knows service ((5, 0) ∷ [])
unfolding has
service-Knows = record {
  clients = record {
    represents = record {
      compares = int_comparator-Compares;
      holds = record {
        unused = [];
        layout = refl;
        counted = refl;
        block = refl;
        room = omega arith;
      };
      keys = (omega arith, tt);
    };
    distinct = (refl, tt);
  };
  no_key_destructor = refl;
  releases = refl;
}

abbrev nothing_taken : ℕ → Option ℕ
nothing_taken socket = none

pub empty-IsReleasable : IsReleasable string_map
unfolding string_map Map.init Vector.init
empty-IsReleasable = record {
  pairs = [];
  stored = record {
    unused = none ∷ none ∷ [];
    layout = refl;
    counted = refl;
    block = refl;
    room = omega arith;
  };
  strings = tt;
}

on_data_sent-releases_example :
    (t : Service) × (on_data_sent nothing_taken 10 server service 5 ≡ ok (server, t, true))
    × (t.connections ≡ set service.connections 0 none)
    × (Map.find t.clients 5 ≡ ok (if 5 == 5 then none else lookup ◌==◌ 5 ((5, 0) ∷ [])))
on_data_sent-releases_example =
    on_data_sent-releases nothing_taken 10 server 5 5 0 (client, in_body 2) (builder (b'x' ∷ []))
      service-Knows (omega arith) (omega arith) (unfold lookup in refl)
      (unfold connection_at in refl) refl refl empty-IsReleasable empty-IsReleasable

-- What RST_client_init makes for the socket 7.
abbrev pub fresh : Client × Parser
fresh = (
  record {
    socket = 7;
    body_recved = 0;
    parser_last_was_value = true;
    upgrade_websocket = false;
    parser_header_value = none;
    parser_header_field = none;
    response_buffer = none;
    request = record {
      headers = string_map;
      method = delete;
      http_major = 0;
      http_minor = 0;
      upgrade_websocket = false;
      query_params = string_map;
      url = builder [];
      body = builder [];
      path = none;
      from_socket = 7;
    };
  },
  record {
    state = start;
    last_pos = 0;
    buf = builder [];
    error = 0;
    method = delete;
    http_major = 0;
    http_minor = 0;
    content_length = 0;
    body_read = 0;
  },
)

on_client_accepted-fresh_example :
    (t : Service) × (on_client_accepted nothing_taken 10 server service 7 ≡ ok (server, t, false))
    × (connection_at t 1 ≡ ok fresh)
    × (Map.find t.clients 7
        ≡ ok (
            if has ◌==◌ 7 ((5, 0) ∷ [])
            then lookup ◌==◌ 7 ((5, 0) ∷ [])
            else if 7 == 7
            then some 1
            else none))
on_client_accepted-fresh_example =
    on_client_accepted-fresh nothing_taken 10 server 7 7 fresh service-Knows (omega arith)
      (omega arith) (unfold has in refl) (unfold ClientState.init in refl)

-- A disk with one file.
abbrev one_file : Block → Option Block
one_file path = if same_text path (codes "w/b") then some (codes "x") else none

abbrev unset : Response
unset = record {
  http_major = 0;
  http_minor = 0;
  status_code = pos 0;
  status_message = none;
  headers = string_map;
  body = builder [];
}

generic_handler-dots_example :
    (path : Block) × (find_text path dots ≡ none)
    × (generic_handler (codes "w") one_file request unset ≡ (
        if leb (1 + 2) max_file_path
        then elim (one_file path) as (λ x. Result Response) [
          | some contents ↦ answer_file (codes "w") one_file unset contents
          | none ↦ set_not_found unset request none
        ]
        else set_not_found unset request none))
generic_handler-dots_example =
    generic_handler-dots (codes "w") one_file request unset (b'/' ∷ b'b' ∷ [])
      (record { exact = refl; counted = refl }) (omega arith, tt) (omega arith, (omega arith, tt))
