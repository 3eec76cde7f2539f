-- ===== src/Tests/Exchange.antt =====
-- A whole exchange with a client, at a small input.
use librestserver.Libc.{Block, codes, print_int}
use librestserver.Util.Num.{int_comparator, int_comparator-Compares, CString}
use librestserver.Util.Vector.{client_release, resource_release}
use librestserver.Util.Map
use librestserver.Util.Map.Shape.{lookup, has}
use librestserver.Util.StringBuilder.{StringBuilder}
use librestserver.Util.StringBuilder.Laws.{Spells}
use librestserver.Http.Request.{string_map}
use librestserver.Http.Response.{to_string}
use librestserver.Http.Response
use librestserver.Http.Response.Text.{headers_text, status_text, to_string-Spells}
use librestserver.Http.Resource.{Resource, handle_request}
use librestserver.Parser.State.{Parser, finished, post}
use librestserver.Parser.Header.{scan_length}
use librestserver.Parser.Execute.Steps.{line_of}
use librestserver.Parser.Execute.Request.{request_text}
use librestserver.Server.State.{Server, Events}
use librestserver.Server.Send.{handle_client_write}
use librestserver.Server.Send.Delivery.{sent_to, writes}
use librestserver.Client.State.{Site}
use librestserver.Client.State as ClientState
use librestserver.Client.Answer.Routing.{first_that_serves}
use librestserver.Util.Keys.{IsKey, same_string}
use librestserver.Util.Map.{Table}
use librestserver.Util.Map.Laws.{IsMap}
use librestserver.Client.Answer.Complete.{asking, answering}
use librestserver.Client.Collect.Message.{collected}
use librestserver.Service.{Service, connection_at, on_data_received, callbacks}
use librestserver.Service.Lifecycle.{Knows}
use librestserver.Service.Exchange.{on_data_received-routed, IsAsked}
use librestserver.Service.Requests.{leaving, IsRequest}
use librestserver.Service.Whole.{AnswersAll, exchange}
use librestserver.Tests.Client.{fresh}
use librestserver.Tests.Http.{response, headers}
use librestserver.Tests.Messages.{two_bytes, two_bytes-IsField, request-IsLine}
use librestserver.Tests.Server.{server, server-Tracks}
use librestserver.Client.Answer.Reply.{IsSite}
use librestserver.Client.Answer.Targets.{plain}
use librestserver.Http.Release.{IsOwned}
use librestserver.Client.Answer.Parsed.{plain-IsParsed}
use librestserver.Prelude.{
  ℕ, ◌≡◌, refl, true, false, Option, none, some, [], ◌∷◌, ◌++◌, arith, ◌==◌, if◌then◌else◌, ok,
  ◌>>=◌, pos,
}

-- One resource, which answers every request in the same way.
abbrev resource : Resource
resource = record {
  path = (b'/' ∷ []) ++ (0 ∷ []);
  method = post;
  callback = λ q r. ok response;
  websocket = none;
}

abbrev pub service : Service
service = record {
  port = 8080;
  site = record {
    resources = record {
      slots = some resource ∷ none ∷ [];
      size = 1;
      capacity = 2;
      destructor = some resource_release;
    };
    generic_handler = none;
  };
  clients = record {
    v = record { slots = some 7 ∷ some 0 ∷ []; size = 2; capacity = 2; destructor = none };
    comparator = int_comparator;
    key_destructor = none;
    value_destructor = some client_release;
  };
  connections = some fresh ∷ [];
}

pub service-Knows : Knows service ((7, 0) ∷ [])
unfolding has
service-Knows = record {
  clients = record {
    represents = record {
      compares = int_comparator-Compares;
      holds = record {
        unused = [];
        layout = refl;
        counted = refl;
        block = refl;
        room = omega arith;
      };
      keys = (omega arith, tt);
    };
    distinct = (refl, tt);
  };
  no_key_destructor = refl;
  releases = refl;
}

abbrev pub text : Block
text =
    ((status_text response (codes "OK") ++ headers_text headers) ++ codes "\r\n")
    ++ (b'h' ∷ b'i' ∷ [])

response-text : (out : StringBuilder) × (to_string response ≡ ok out) × Spells out text
response-text =
    to_string-Spells response (codes "OK") headers (b'h' ∷ b'i' ∷ []) refl
      (omega arith, (omega arith, tt))
      (record { unused = []; layout = refl; counted = refl; block = refl; room = omega arith })
      (((omega arith, tt), (omega arith, tt)), tt) (record { exact = refl; counted = refl })

pub packet-IsRequest :
    IsRequest post
      (b'/' ∷ [])
      (b'/' ∷ [])
      b'1'
      b'1'
      (two_bytes ∷ [])
      string_map
      true
      (b'h' ∷ b'i' ∷ [])
packet-IsRequest = record {
  is_line = request-IsLine;
  parsed = plain-IsParsed string_map (b'/' ∷ []) (ground arith);
  path_text = (omega arith, tt);
  fields = (two_bytes-IsField, tt);
  announced = unfold scan_length in refl;
  small = omega arith;
}

abbrev pub service_site : IsSite service.site
service_site = record {
  named = λ r. b'/' ∷ [];
  resources = resource ∷ [];
  published = record {
    unused = none ∷ [];
    layout = refl;
    counted = refl;
    block = refl;
    room = omega arith;
  };
  paths = ((refl, (omega arith, tt)), tt);
}

pub response-IsOwned : IsOwned response
response-IsOwned = record {
  named = (codes "OK" ++ (0 ∷ []), refl);
  owned = record {
    pairs = (some (codes "A" ++ (0 ∷ [])), some (codes "1" ++ (0 ∷ []))) ∷ [];
    stored = record {
      unused = [];
      layout = refl;
      counted = refl;
      block = refl;
      room = omega arith;
    };
    strings = (((codes "A" ++ (0 ∷ []), refl), (codes "1" ++ (0 ∷ []), refl)), tt);
  };
}

pub service-AnswersAll :
    AnswersAll service service_site fresh.0 post
      (b'/' ∷ [])
      (plain (b'/' ∷ []))
      b'1'
      b'1'
      (two_bytes ∷ [])
      (b'h' ∷ b'i' ∷ [])
      text
unfolding first_that_serves handle_request Response.init
service-AnswersAll headers' params h k = record {
  response = response;
  handled = refl;
  buffer = response-text.0;
  printed = response-text.1;
  spelled = response-text.2;
  releasable = response-IsOwned;
}

pub packet-IsAsked :
    IsAsked post (b'/' ∷ []) (plain (b'/' ∷ [])) b'1' b'1' (two_bytes ∷ []) (b'h' ∷ b'i' ∷ [])
packet-IsAsked = record {
  is_line = request-IsLine;
  written = refl;
  target = ground arith;
  path_text = (omega arith, tt);
  fields = (two_bytes-IsField, tt);
  announced = unfold scan_length in refl;
  small = omega arith;
}

-- The kernel takes 10 bytes of the response at once, and 17 in the next round.
abbrev pub ten : ℕ → Option ℕ
ten socket = some 10

abbrev others : Events
others = record {
  selected = pos 1;
  readable = λ socket. false;
  writable = λ socket. true;
  accepted = none;
  received = λ socket. none;
  taken = λ socket. some 17;
}

abbrev pub packet : Block
packet = request_text (line_of post (b'/' ∷ []) b'1' b'1') (two_bytes ∷ []) (b'h' ∷ b'i' ∷ [])

on_data_received-routed_example :
    (p : Parser) × (headers params : Table CString) × (on_data_received ten 5 server service 7
        packet
      ≡ (answering service.site ten true (record {
        client = asking fresh.0 post (b'/' ∷ []) (b'/' ∷ []) 1 1 headers params (b'h' ∷ b'i' ∷ []);
        server = server;
      })
          >>= leaving service 0 p))
    × IsMap same_string IsKey headers (collected (two_bytes ∷ []) [])
    × IsMap same_string IsKey params []
    × (p.state ≡ finished)
    × Spells p.buf (b'h' ∷ b'i' ∷ [])
on_data_received-routed_example =
    on_data_received-routed ten 0 server service 7 0 fresh post b'/' [] (plain (b'/' ∷ [])) b'1'
      b'1' (two_bytes ∷ []) (b'h' ∷ b'i' ∷ []) (unfold Map.find in (unfold int_comparator in refl))
      (unfold connection_at in refl) (unfold ClientState.init in refl) packet-IsAsked

exchange_example :
    (server2 : Server) × (s2 : Service) × ((on_data_received ten 5 server service 7 packet >>= λ r.
    writes (callbacks ten 5) (others ∷ []) r.0 r.1 7 >>= λ w.
    handle_client_write (callbacks ten 5) others w.0 w.1 7)
      ≡ ok (server2, s2, true))
    × (sent_to 7 server2.wire ≡ sent_to 7 server.wire ++ text)
    × (Map.find s2.clients 5 ≡ ok (if 7 == 5 then none else lookup ◌==◌ 5 ((7, 0) ∷ [])))
unfolding print_int
exchange_example =
    exchange ten 0 server 7 5 0 fresh post b'/' [] (plain (b'/' ∷ [])) b'1' b'1' (two_bytes ∷ [])
      (b'h' ∷ b'i' ∷ []) text 10 (others ∷ []) others service-Knows (omega arith) (omega arith)
      (unfold lookup in refl) (unfold connection_at in refl) (unfold ClientState.init in refl)
      packet-IsAsked service_site service-AnswersAll server-Tracks (unfold has in refl) refl
      (omega arith) (17, refl, omega arith, omega arith, refl)
