-- ===== src/Tests/Server.antt =====
-- Responses on their way at small inputs.
use librestserver.Libc.{Block}
use librestserver.Util.Num.{int_comparator, int_comparator-Compares}
use librestserver.Util.Vector.{Vector, rst_free}
use librestserver.Util.Map
use librestserver.Util.Map.Shape.{has}
use librestserver.Util.Set.Laws.{member}
use librestserver.Server.State.{Server, Events, Callbacks, WriterData}
use librestserver.Server.Send.{send, handle_client_write}
use librestserver.Server.Send.Delivery.{Pending, sent_to, writes}
use librestserver.Server.Send.Start.{Tracks, send-writes, send-second, send-failed}
use librestserver.Prelude.{
  ℕ, ◌≡◌, refl, true, false, none, some, [], ◌∷◌, ◌++◌, arith, take, out_of_bounds, ok, err, ◌>>=◌,
  pos,
}

-- A server that writes to the sockets 5 and 6; 5 has a writer that has sent "a" of "abc".
abbrev pub half_sent : WriterData
half_sent = record { block = b'a' ∷ b'b' ∷ b'c' ∷ 0 ∷ []; off = pos 1; len = pos 2 }

abbrev pub one_pair : Vector ℕ
one_pair = record { slots = some 5 ∷ some 0 ∷ []; size = 2; capacity = 2; destructor = none }

abbrev pub one_socket : Vector ℕ
one_socket = record { slots = some 5 ∷ none ∷ []; size = 1; capacity = 2; destructor = none }

abbrev pub server : Server
server = record {
  port = 8080;
  serv_sock = 3;
  max_connections = 5;
  clients = record { v = one_socket; comparator = int_comparator; destructor = none };
  finished_clients = record { slots = none ∷ none ∷ []; size = 0; capacity = 2; destructor = none };
  writing_sockets = record { v = one_socket; comparator = int_comparator; destructor = none };
  writers_data = record {
    v = one_pair;
    comparator = int_comparator;
    key_destructor = none;
    value_destructor = some rst_free;
  };
  writers = half_sent ∷ [];
  wire = (5, b'a' ∷ []) ∷ [];
  closed = [];
}

pub server-Tracks : Tracks server (5 ∷ []) ((5, 0) ∷ [])
server-Tracks = record {
  sockets = record {
    compares = int_comparator-Compares;
    holds = record {
      unused = none ∷ [];
      layout = refl;
      counted = refl;
      block = refl;
      room = omega arith;
    };
    held = (omega arith, tt);
    distinct = unfold member in (refl, tt);
  };
  data_of = record {
    represents = record {
      compares = int_comparator-Compares;
      holds = record {
        unused = [];
        layout = refl;
        counted = refl;
        block = refl;
        room = omega arith;
      };
      keys = (omega arith, tt);
    };
    distinct = unfold has in (refl, tt);
  };
}

server-Pending : Pending server 5 (b'a' ∷ []) (b'b' ∷ b'c' ∷ []) (0 ∷ [])
unfolding Map.find int_comparator
server-Pending = record {
  at = 0;
  writer = half_sent;
  found = refl;
  stored = refl;
  progress = record { contents = refl; place = refl; remaining = refl };
}

-- An owner without a state, and rounds in which send() takes one byte.
abbrev owner : Callbacks Unit
owner = record {
  on_client_accepted = λ s o socket. ok (s, o, false);
  on_data_received = λ s o socket bytes. ok (s, o, false);
  on_data_sent = λ s o socket. ok (s, o, true);
}

abbrev one_byte : Events
one_byte = record {
  selected = pos 1;
  readable = λ socket. false;
  writable = λ socket. true;
  accepted = none;
  received = λ socket. none;
  taken = λ socket. some 1;
}

abbrev response : Block
response = b'x' ∷ b'y' ∷ b'z' ∷ []

send-writes_example :
    (s1 : Server) × ((send server (some 1) 6 (response ++ (0 ∷ [])) 3 >>= λ r.
    writes owner (one_byte ∷ one_byte ∷ []) r tt 6)
      ≡ ok (s1, tt))
    × Pending s1 6 response [] (0 ∷ [])
    × (sent_to 6 s1.wire ≡ sent_to 6 server.wire ++ response)
send-writes_example =
    send-writes owner (one_byte ∷ one_byte ∷ []) tt 6 1 response (0 ∷ []) server-Tracks
      (omega arith) (unfold has in refl) (omega arith)
      (1, refl, omega arith, omega arith, (1, refl, omega arith, omega arith, refl))

send-second_example :
    (s1 : Server) × (send server (some 1) 5 (response ++ (0 ∷ [])) 3 ≡ ok s1)
    × Pending s1 5 (b'a' ∷ []) (b'b' ∷ b'c' ∷ []) (0 ∷ [])
    × (sent_to 5 s1.wire ≡ sent_to 5 server.wire ++ take 1 response)
send-second_example =
    send-second 5 1 response (0 ∷ []) (b'a' ∷ []) (b'b' ∷ b'c' ∷ []) (0 ∷ []) server-Tracks
      (omega arith) (unfold has in refl) server-Pending

send-failed_example :
    (send server none 6 (response ++ (0 ∷ [])) 3 >>= λ r. handle_client_write owner one_byte r tt 6)
    ≡ err out_of_bounds
send-failed_example =
    send-failed owner one_byte tt 6 response (0 ∷ []) server-Tracks (omega arith)
      (unfold has in refl)
