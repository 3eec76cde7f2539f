-- ===== src/Tests/Loop.antt =====
-- Rounds of the loop, for the service and for an owner that sends back what it receives.
use librestserver.Libc.{Block}
use librestserver.Util.Map.Shape.{lookup, has}
use librestserver.Util.Set.Laws.{member, IsSetOf, removed}
use librestserver.Server.State.{Server, Events, Callbacks, WriterData}
use librestserver.Server.Send.{send}
use librestserver.Util.Num.{IsWord, int_comparator}
use librestserver.Util.Set.Updates.{added}
use librestserver.Util.Vector.Shape.{Holds}
use librestserver.Server.Loop.{again, turn, serve, Ready}
use librestserver.Server.Plain
use librestserver.Server.Plain.Cut.{ended, send-cut, serve-closed}
use librestserver.Server.Send.Delivery.{Pending, sent_to}
use librestserver.Server.Steady.{among, Served, Steady}
use librestserver.Server.Steady.Turn.{IsKnock}
use librestserver.Service.{Service, connection_at, callbacks}
use librestserver.Service.Arrival.{turn-fresh}
use librestserver.Service.Departure.{turn-released}
use librestserver.Client.Collect.Headers.{builder}
use librestserver.Tests.Samples.{in_body}
use librestserver.Util.Set
use librestserver.Client.State as ClientState
use librestserver.Util.Map
use librestserver.Tests.Client.{fresh, client, service, service-Knows, empty-IsReleasable}
use librestserver.Tests.Server.{server, server-Tracks, half_sent}
use librestserver.Prelude.{
  ℕ, ◌≡◌, refl, true, false, Option, none, some, List, [], ◌∷◌, ◌++◌, arith, ◌==◌, if◌then◌else◌,
  length, set, take, ok, ◌>>=◌, pos,
}

-- The state of the owner is the bytes that it got. It is told that a response was sent, and then has
-- the client released.
abbrev echo : Callbacks Block
echo = record {
  on_client_accepted = λ s o socket. ok (s, o, false);
  on_data_received = λ s o socket bytes.
      send s (some 0) socket bytes (length bytes) >>= λ t. ok (t, o ++ bytes, false);
  on_data_sent = λ s o socket. ok (s, o, true);
}

abbrev no_byte : ℕ → Option ℕ
no_byte socket = none

server-Served : Served server (5 ∷ []) ((5, 0) ∷ [])
unfolding member lookup
server-Served = record {
  tracks = server-Tracks;
  known = λ j word there. (0, ground arith);
  ready = λ j at word e. (half_sent, ground arith, λ more. (1, 2, refl, refl, omega arith));
}

server-Steady : Steady server (5 ∷ []) []
unfolding member
server-Steady = record {
  clients_of = server-Tracks.sockets;
  compared = refl;
  sockets = (omega arith, tt);
  finished_of = record {
    unused = none ∷ none ∷ [];
    layout = refl;
    counted = refl;
    block = refl;
    room = omega arith;
  };
  finished_sockets = tt;
  writing = 5 ∷ [];
  entries = (5, 0) ∷ [];
  served = server-Served;
}

-- Only the listening socket 3 is ready, and the socket 7 is accepted.
abbrev knock : Events
knock = record {
  selected = pos 1;
  readable = λ socket. socket == 3;
  writable = λ socket. false;
  accepted = some 7;
  received = λ socket. none;
  taken = λ socket. none;
}

knock-IsKnock : IsKnock server knock (5 ∷ []) 7
unfolding member
knock-IsKnock = record {
  selected = refl;
  knocking = refl;
  accepted = refl;
  socket = omega arith;
  listening = omega arith;
  apart = refl;
  idle = λ i other. (other, refl);
}

turn-fresh_example :
    (u : Server) × (t : Service) × (turn (callbacks no_byte 5) knock server service
      ≡ ok (again u t))
    × Steady u (added ◌==◌ IsWord 7 (5 ∷ [])) []
    × (u.closed ≡ server.closed)
    × (connection_at t 1 ≡ ok fresh)
    × (Map.find t.clients 5
        ≡ ok (
            if has ◌==◌ 5 ((5, 0) ∷ [])
            then lookup ◌==◌ 5 ((5, 0) ∷ [])
            else if 5 == 7
            then some 1
            else none))
turn-fresh_example =
    turn-fresh no_byte 5 knock 7 5 fresh server-Steady knock-IsKnock service-Knows (omega arith)
      (unfold has in refl) (unfold ClientState.init in refl)

-- The response on the socket 5 is through, and only this socket is ready.
abbrev through : WriterData
through = record { block = b'a' ∷ b'b' ∷ b'c' ∷ 0 ∷ []; off = pos 3; len = pos 0 }

abbrev through_server : Server
through_server = record server { writers = through ∷ [] }

abbrev writable_5 : Events
writable_5 = record {
  selected = pos 1;
  readable = λ socket. false;
  writable = λ socket. socket == 5;
  accepted = none;
  received = λ socket. none;
  taken = λ socket. none;
}

through_server-Served : Served through_server (5 ∷ []) ((5, 0) ∷ [])
unfolding member lookup
through_server-Served = record {
  tracks = record { sockets = server-Tracks.sockets; data_of = server-Tracks.data_of };
  known = λ j word there. (0, ground arith);
  ready = λ j at word e. (through, ground arith, λ more. cc);
}

through_server-Steady : Steady through_server (5 ∷ []) []
through_server-Steady = record {
  clients_of = server-Steady.clients_of;
  compared = refl;
  sockets = server-Steady.sockets;
  finished_of = server-Steady.finished_of;
  finished_sockets = tt;
  writing = 5 ∷ [];
  entries = (5, 0) ∷ [];
  served = through_server-Served;
}

through_server-Pending : Pending through_server 5 (b'a' ∷ b'b' ∷ b'c' ∷ []) [] (0 ∷ [])
unfolding Map.find int_comparator
through_server-Pending = record {
  at = 0;
  writer = through;
  found = refl;
  stored = refl;
  progress = record { contents = refl; place = refl; remaining = refl };
}

turn-released_example :
    (u : Server) × (t : Service) × (ds : List ℕ) × (turn
        (callbacks no_byte 5)
        writable_5
        through_server
        service
      ≡ ok (again u t))
    × Steady u ds (5 ∷ [])
    × (u.closed ≡ through_server.closed ++ (5 ∷ []))
    × (among 6 ds ≡ (if among 6 (5 ∷ []) then false else among 6 ([] ++ (5 ∷ []))))
    × (t.connections ≡ set service.connections 0 none)
    × (Map.find t.clients 6 ≡ ok (if 5 == 6 then none else lookup ◌==◌ 6 ((5, 0) ∷ [])))
turn-released_example =
    turn-released no_byte 5 writable_5 [] [] 5 6 0 (client, in_body 2) (builder (b'x' ∷ []))
      through_server-Steady
      (record { selected = refl; unread = λ i. refl; writable = refl; idle = λ i other. other })
      (omega arith) (unfold Set.contains in (unfold int_comparator in refl)) through_server-Pending
      service-Knows (omega arith) (omega arith) (unfold lookup in refl)
      (unfold connection_at in refl) refl refl empty-IsReleasable empty-IsReleasable

-- The socket 6 can be written to; the peer of 5 has closed its connection.
abbrev can_send : Ready
can_send = record { can_read = λ socket. false; can_write = λ socket. true }

abbrev can_receive : Ready
can_receive = record { can_read = λ socket. true; can_write = λ socket. false }

abbrev gone : Events
gone = record {
  selected = pos 1;
  readable = λ socket. true;
  writable = λ socket. false;
  accepted = none;
  received = λ socket. some [];
  taken = λ socket. some 0;
}

abbrev response : Block
response = b'x' ∷ b'y' ∷ b'z' ∷ []

send-cut_example :
    (u : Server) × ((Plain.send server (some 1) 6 (response ++ (0 ∷ [])) 3 >>= λ r.
    Plain.serve echo knock can_send r [] 6)
      ≡ (echo.on_data_sent u [] 6 >>= ended echo knock can_send 6))
    × IsSetOf ◌==◌ IsWord u.writing_sockets (removed ◌==◌ IsWord 6 (added ◌==◌ IsWord 6 (5 ∷ [])))
    × (sent_to 6 u.wire ≡ sent_to 6 server.wire ++ take 1 response)
send-cut_example =
    send-cut echo knock can_send server [] 6 1 response (0 ∷ []) server-Tracks.sockets (omega arith)
      (omega arith) refl refl

serve-closed_example :
    (u : Server) × (Plain.serve echo gone can_receive server [] 5 ≡ ok (u, []))
    × Holds u.finished_clients ([] ++ (5 ∷ []))
    × (serve echo gone can_receive server [] 5 ≡ ok (server, []))
serve-closed_example =
    serve-closed echo gone can_receive server [] 5 server-Steady.finished_of refl refl refl
