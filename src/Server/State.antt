-- ===== src/Server/State.antt =====
-- RST_SelectTcpServer, and what the operating system answers to it.
use librestserver.Libc.{Block}
use librestserver.Util.Num.{int_comparator}
use librestserver.Util.Vector.{Vector, rst_free}
use librestserver.Util.Vector
use librestserver.Util.Map.{Table}
use librestserver.Util.Map
use librestserver.Util.Set.{Group}
use librestserver.Util.Set
use librestserver.Prelude.{ℕ, Bool, Option, none, some, List, [], if◌then◌else◌, Result, ℤ}

-- What a writer still has to send: the pointer `buf` is an offset into the response's block, and
-- may leave it when send() reports an error.
pub record WriterData : Type 0 where
  pub block : Block
  pub off : ℤ
  pub len : ℤ

-- A server before RST_selecttcpserver_start. The mutexes are not modelled: there is one thread.
pub record Idle : Type 0 where
  pub port : ℕ
  pub writing_sockets : Group ℕ
  pub writers_data : Table ℕ

-- A socket is a 32-bit word. `writers` holds the WriterData that were allocated, and a pointer to
-- one is its index. `wire` and `closed` record what the kernel took for each socket, and which
-- sockets were closed, in order.
pub record Server : Type 0 where
  pub port : ℕ
  pub serv_sock : ℕ
  pub max_connections : ℕ
  pub clients : Group ℕ
  pub finished_clients : Vector ℕ
  pub writing_sockets : Group ℕ
  pub writers_data : Table ℕ
  pub writers : List WriterData
  pub wire : List (ℕ × Block)
  pub closed : List ℕ

-- The answers of one round: the value of select(), which descriptors are ready, the accepted
-- socket, what recv() returns, how many bytes send() takes. `none` stands for -1.
pub record Events : Type 0 where
  pub selected : ℤ
  pub readable : ℕ → Bool
  pub writable : ℕ → Bool
  pub accepted : Option ℕ
  pub received : ℕ → Option Block
  pub taken : ℕ → Option ℕ

-- The callbacks of the server on its owner's state. The Boolean is the returned int.
pub record Callbacks (O : Type 0) : Type 0 where
  pub on_client_accepted : Server → O → ℕ → Result (Server × O × Bool)
  pub on_data_received : Server → O → ℕ → Block → Result (Server × O × Bool)
  pub on_data_sent : Server → O → ℕ → Result (Server × O × Bool)

unfoldable pub init : ℕ → Idle
unfolding Set.init Map.init
init port = record {
  port = port;
  writing_sockets = Set.init int_comparator none;
  writers_data = Map.init int_comparator none (some rst_free);
}

-- RST_selecttcpserver_start up to the loop, from the answers of socket() and listen(); an error of
-- bind() is only printed. `none` is the return of 1.
unfoldable pub start : Idle → Option ℕ → Bool → Option Server
unfolding Set.init Vector.init
start idle none listening = none
start idle (some sock) listening =
    if listening
    then some (record {
      port = idle.port;
      serv_sock = sock;
      max_connections = 5;
      clients = Set.init int_comparator none;
      finished_clients = Vector.init none;
      writing_sockets = idle.writing_sockets;
      writers_data = idle.writers_data;
      writers = [];
      wire = [];
      closed = [];
    })
    else none
