-- ===== src/Server/Send.antt =====
-- RST_selecttcpserver_send and the two handlers of a client's socket.
pub mod Progress
pub mod Delivery
pub mod Start
use librestserver.Libc.{Block, read_bytes}
use librestserver.Util.Map
use librestserver.Util.Set
use librestserver.Server.State.{WriterData, Server, Events, Callbacks}
use librestserver.Prelude.{
  ℕ, ◌+◌, Bool, false, Option, none, some, [], ◌∷◌, ◌++◌, ◌==◌, if◌then◌else◌, length, get_elem?,
  set, take, out_of_bounds, uninitialized, assertion, Result, ok, err, ◌>>=◌, ◌>>◌, from_option,
  pos, negsuc, is_positive, add_ℕ, take_ℕ,
}

-- send(socket, buf, len, 0) on `len` bytes at `off`, of which the kernel takes `taken`: the bytes
-- taken. A pointer in front of the block, or a size beyond it, is a fault.
unfoldable pub kernel_send : WriterData → Option ℕ → Result Block
unfolding read_bytes
kernel_send w taken = elim w.off [
  | negsuc k ↦ err out_of_bounds
  | pos off ↦ elim w.len [
    | negsuc n ↦ err out_of_bounds
    | pos n ↦
        (read_bytes w.block off n >>= λ bytes. elim taken [
          | none ↦ ok []
          | some t ↦ ok (take t bytes)
        ])
  ]
]

-- `buf + sentnow` and `len - sentnow`, where -1 stands for an error.
unfoldable pub advance : WriterData → Option ℕ → WriterData
advance w none = record w { off = take_ℕ w.off 1; len = add_ℕ w.len 1 }
advance w (some n) = record w { off = add_ℕ w.off n; len = take_ℕ w.len n }

-- A WriterData in front of the first byte.
abbrev pub whole : Block → ℕ → WriterData
whole buf size = record { block = buf; off = pos 0; len = pos size }

-- One call of send() is made at once, and what is left is kept for the loop. An entry that the map
-- already holds for the socket stays.
unfoldable pub send : Server → Option ℕ → ℕ → Block → ℕ → Result Server
unfolding kernel_send advance Set.insert Map.insert
send s taken socket buf size = do
  writing ← Set.insert s.writing_sockets socket
  sent ← kernel_send (whole buf size) taken
  data' ← Map.insert s.writers_data socket (length s.writers)
  ok (record s {
    writing_sockets = writing;
    writers_data = data';
    writers = s.writers ++ (advance (whole buf size) taken ∷ []);
    wire = s.wire ++ ((socket, sent) ∷ []);
  })

module _ {O : Type 0} (cb : Callbacks O) (ev : Events) where
  -- recv() of at most RST_TCPSERVER_BUF_SIZE bytes.
  unfoldable pub handle_client_read : Server → O → ℕ → Result (Server × O × Bool)
  handle_client_read s o socket = do
    bytes ← from_option (ev.received socket) assertion
    if length bytes == 0 then ok (s, o, false) else cb.on_data_received s o socket bytes

  -- The branch of `wd->len > 0`, for the WriterData at index `at`.
  unfoldable pub write_more : Server → ℕ → ℕ → WriterData → Result Server
  unfolding kernel_send advance
  write_more s socket at w = do
    sent ← kernel_send w (ev.taken socket)
    ok (record s {
      writers = set s.writers at (advance w (ev.taken socket));
      wire = s.wire ++ ((socket, sent) ∷ []);
    })

  unfoldable pub handle_client_write : Server → O → ℕ → Result (Server × O × Bool)
  unfolding Map.find write_more
  handle_client_write s o socket = do
    found ← Map.find s.writers_data socket
    at ← from_option found uninitialized
    w ← from_option (get_elem? s.writers at) out_of_bounds
    if is_positive w.len
        then (write_more s socket at w >>= λ t. ok (t, o, false))
        else cb.on_data_sent s o socket
