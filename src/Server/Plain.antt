-- ===== src/Server/Plain.antt =====
-- The build of librestserver/tcpserver.c without THREAD_FOR_HANDLER. It keeps no writers: a response
-- is sent with one call, and a socket that is writable then is done. What the two builds have in
-- common word by word, the sets for select() and the release of the clients, is in Server.Loop.
pub mod Cut
use librestserver.Libc.{Block}
use librestserver.Util.Vector.{Iterator}
use librestserver.Util.Vector
use librestserver.Util.Set
use librestserver.Server.State.{Server, Events, Callbacks}
use librestserver.Server.Send.{kernel_send, whole}
use librestserver.Server.Loop.{
  watch, highest, is_set, Turn, again, returned, release_client, release_clients, clear_finished,
  Ready, wants_write, accept_client,
}
use librestserver.Prelude.{
  ℕ, zero, suc, Bool, true, false, ◌||◌, Option, none, some, List, [], ◌∷◌, ◌++◌, ◌==◌,
  if◌then◌else◌, length, no_progress, Result, ok, err, ◌>>=◌, is_positive,
}

-- What send() does not take is not kept.
unfoldable pub send : Server → Option ℕ → ℕ → Block → ℕ → Result Server
unfolding kernel_send Set.insert
send s taken socket buf size = do
  writing ← Set.insert s.writing_sockets socket
  sent ← kernel_send (whole buf size) taken
  ok (record s { writing_sockets = writing; wire = s.wire ++ ((socket, sent) ∷ []) })

module _ {O : Type 0} (cb : Callbacks O) (ev : Events) where
  -- The end of a connection and an error of recv() both ask for the release of the client.
  unfoldable pub handle_client_read : Server → O → ℕ → Result (Server × O × Bool)
  handle_client_read s o socket = elim (ev.received socket) [
    | none ↦ ok (s, o, true)
    | some bytes ↦
        if length bytes == 0 then ok (s, o, true) else cb.on_data_received s o socket bytes
  ]

  unfoldable pub handle_client_write : Server → O → ℕ → Result (Server × O × Bool)
  handle_client_write s o socket = cb.on_data_sent s o socket

module _ {O : Type 0} (cb : Callbacks O) (ev : Events) (ready : Ready) where
  unfoldable pub read_turn : Server → O → ℕ → Result (Server × O × Bool)
  unfolding handle_client_read
  read_turn s o sock =
      if ready.can_read sock then handle_client_read cb ev s o sock else ok (s, o, false)

  -- The socket is no writer any more before its owner is told.
  unfoldable pub write_turn : Server → O → ℕ → Result (Server × O × Bool)
  unfolding handle_client_write Set.erase
  write_turn s o sock = do
    writing ← Set.erase s.writing_sockets sock
    handle_client_write cb ev (record s { writing_sockets = writing }) o sock

  -- The body of the loop over the clients: either of the two handlers may ask for the release.
  unfoldable pub serve : Server → O → ℕ → Result (Server × O)
  unfolding read_turn wants_write write_turn release_client
  serve s o sock = read_turn s o sock >>= λ (r : Server × O × Bool).
      wants_write cb ev ready r.0 sock >>= λ wants.
      (if wants then write_turn r.0 r.1 sock else ok (r.0, r.1, false))
      >>= λ (w : Server × O × Bool).
          if r.2 || w.2 then (release_client w.0 sock >>= λ t. ok (t, w.1)) else ok (w.0, w.1)

  unfoldable pub serve_from : ℕ → Server → O → Iterator → Result (Server × O)
  unfolding serve Set.end Set.value Vector.next
  serve_from zero s o it = err no_progress
  serve_from (suc fuel) s o it = elim (Set.end s.clients it) [
    | true ↦ ok (s, o)
    | false ↦ Set.value s.clients it >>= (λ sock.
        serve s o sock >>= λ (r : Server × O). serve_from fuel r.0 r.1 (Vector.next it))
  ]

  unfoldable pub serve_all : Server → O → Result (Server × O)
  unfolding serve_from Vector.begin
  serve_all s o = serve_from (suc s.clients.v.size) s o Vector.begin

module _ {O : Type 0} (cb : Callbacks O) (ev : Events) where
  unfoldable pub finish_turn : Ready → Server → O → Result (Turn O)
  unfolding clear_finished serve_all release_clients
  finish_turn ready s o = clear_finished s >>= λ t.
      serve_all cb ev ready t o >>= λ (r : Server × O).
      release_clients r.0 >>= λ u. ok (again u r.1)

  unfoldable pub accept_turn : Ready → Server → O → Result (Turn O)
  unfolding accept_client finish_turn
  accept_turn ready s o =
      if ready.can_read s.serv_sock
      then elim ev.accepted [
        | none ↦ ok (returned s o)
        | some sock ↦
            accept_client cb ev s o sock >>= (λ (r : Server × O). finish_turn ready r.0 r.1)
      ]
      else finish_turn ready s o

  unfoldable pub turn : Server → O → Result (Turn O)
  unfolding watch highest accept_turn
  turn s o = do
    readers ← watch s.clients
    writers ← watch s.writing_sockets
    mx ← highest s
    if is_positive ev.selected
        then accept_turn
            (record {
              can_read = is_set (s.serv_sock ∷ readers) mx ev.readable;
              can_write = is_set writers mx ev.writable;
            })
            s o
        else ok (returned s o)

-- The rounds of the loop on a list of answers, until it returns or the list ends.
unfoldable pub run : {O : Type 0} → Callbacks O → List Events → Server → O → Result (Server × O)
unfolding turn
run cb [] s o = ok (s, o)
run cb (ev ∷ evs) s o =
    turn cb ev s o >>= (λ r. elim r [ again t p ↦ run cb evs t p | returned t p ↦ ok (t, p) ])
