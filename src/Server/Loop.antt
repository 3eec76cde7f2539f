-- ===== src/Server/Loop.antt =====
-- RST_selecttcpserver_server_loop: one round of the loop, and the release of finished clients.
use librestserver.Util.Num.{max_int}
use librestserver.Util.Vector.{Iterator, read_slot}
use librestserver.Util.Vector
use librestserver.Util.Map
use librestserver.Util.Set.{Group}
use librestserver.Util.Set
use librestserver.Server.State.{Server, Events, Callbacks}
use librestserver.Server.Send.{handle_client_read, handle_client_write}
use librestserver.Prelude.{
  ℕ, zero, suc, ◌+◌, Bool, true, false, ◌&&◌, not, none, some, List, [], ◌∷◌, ◌++◌, ltb, leb, ◌==◌,
  if◌then◌else◌, assertion, no_progress, Result, ok, err, ◌>>=◌, ◌>>◌, guard, is_positive, to_int,
  to_unsigned,
}

-- FD_SET for each element: the sockets of the set, in order.
unfoldable pub watch_from : ℕ → Group ℕ → Iterator → Result (List ℕ)
unfolding Set.end Set.value Vector.next
watch_from zero s it = err no_progress
watch_from (suc fuel) s it = elim (Set.end s it) [
  | true ↦ ok []
  | false ↦ Set.value s it >>= (λ x. watch_from fuel s (Vector.next it) >>= λ xs. ok (x ∷ xs))
]

unfoldable pub watch : Group ℕ → Result (List ℕ)
unfolding watch_from Vector.begin
watch s = watch_from (suc s.v.size) s Vector.begin

-- `mx` of the source, as an unsigned number.
unfoldable pub highest : Server → Result ℕ
unfolding Set.is_empty Set.max_element max_int
highest s =
    if Set.is_empty s.clients
    then ok s.serv_sock
    else (Set.max_element s.clients >>= λ m.
        ok (to_unsigned 32 (max_int (to_int s.serv_sock) (to_int m))))

unfoldable pub mem : ℕ → List ℕ → Bool
mem x [] = false
mem x (y ∷ ys) = if x == y then true else mem x ys

-- FD_ISSET after select(): the descriptor was set, it is below the first argument of select(), and
-- it is ready.
abbrev pub is_set : List ℕ → ℕ → (ℕ → Bool) → ℕ → Bool
is_set watched mx ready sock = mem sock watched && (leb sock mx && ready sock)

-- A round either goes on or returns 1 from the loop.
pub data Turn (O : Type 0) : Type 0 where
  again : Server → O → Turn O
  returned : Server → O → Turn O

unfoldable pub release_client : Server → ℕ → Result Server
unfolding Vector.push_back
release_client s sock = do
  v ← Vector.push_back s.finished_clients sock
  ok (record s { finished_clients = v })

-- for (i = 0; i < finished_clients->size; i++), with the rounds left
unfoldable pub release_from : ℕ → Server → ℕ → Result Server
unfolding read_slot Set.erase
release_from zero s i = ok s
release_from (suc n) s i = do
  sock ← read_slot s.finished_clients.slots i
  clients ← Set.erase s.clients sock
  release_from n (record s { clients = clients; closed = s.closed ++ (sock ∷ []) }) (i + 1)

unfoldable pub release_clients : Server → Result Server
unfolding release_from
release_clients s = release_from s.finished_clients.size s 0

unfoldable pub clear_finished : Server → Result Server
unfolding Vector.clear
clear_finished s =
    if ltb 0 s.finished_clients.size
    then (Vector.clear s.finished_clients >>= λ r. ok (record s { finished_clients = r.0 }))
    else ok s

-- The sets as select() left them.
pub record Ready : Type 0 where
  pub can_read : ℕ → Bool
  pub can_write : ℕ → Bool

module _ {O : Type 0} (cb : Callbacks O) (ev : Events) (ready : Ready) where
  -- A writer that is done leaves both containers.
  unfoldable pub drop_writer : Server → ℕ → Result Server
  unfolding Set.erase Map.erase
  drop_writer s sock = do
    writing ← Set.erase s.writing_sockets sock
    r ← Map.erase s.writers_data sock
    ok (record s { writing_sockets = writing; writers_data = r.0 })

  unfoldable pub write_turn : Server → O → ℕ → Result (Server × O × Bool)
  unfolding handle_client_write drop_writer
  write_turn s o sock = handle_client_write cb ev s o sock >>= λ (r : Server × O × Bool).
      if r.2 then (drop_writer r.0 sock >>= λ t. ok (t, r.1, true)) else ok (r.0, r.1, false)

  unfoldable pub read_turn : Server → O → ℕ → Result (Server × O × Bool)
  unfolding handle_client_read
  read_turn s o sock =
      if ready.can_read sock then handle_client_read cb ev s o sock else ok (s, o, false)

  -- FD_ISSET(sock, &writeset) && RST_set_contains(writing_sockets, sock)
  unfoldable pub wants_write : Server → ℕ → Result Bool
  unfolding Set.contains
  wants_write s sock =
      if ready.can_write sock then Set.contains s.writing_sockets sock else ok false

  -- The body of the loop over the clients. The assertion says that a read never asks for release.
  unfoldable pub serve : Server → O → ℕ → Result (Server × O)
  unfolding read_turn wants_write write_turn release_client
  serve s o sock = read_turn s o sock >>= λ (r : Server × O × Bool).
      guard (not (ready.can_read sock && r.2)) assertion
      >> (wants_write r.0 sock >>= λ wants.
          (if wants then write_turn r.0 r.1 sock else ok r) >>= λ (w : Server × O × Bool).
          if w.2 then (release_client w.0 sock >>= λ t. ok (t, w.1)) else ok (w.0, w.1))

  unfoldable pub serve_from : ℕ → Server → O → Iterator → Result (Server × O)
  unfolding serve Set.end Set.value Vector.next
  serve_from zero s o it = err no_progress
  serve_from (suc fuel) s o it = elim (Set.end s.clients it) [
    | true ↦ ok (s, o)
    | false ↦ Set.value s.clients it >>= (λ sock.
        serve s o sock >>= λ (r : Server × O). serve_from fuel r.0 r.1 (Vector.next it))
  ]

  unfoldable pub serve_all : Server → O → Result (Server × O)
  unfolding serve_from Vector.begin
  serve_all s o = serve_from (suc s.clients.v.size) s o Vector.begin

module _ {O : Type 0} (cb : Callbacks O) (ev : Events) where
  -- The branch of FD_ISSET(serv_sock, &readset) with a socket accepted.
  unfoldable pub accept_client : Server → O → ℕ → Result (Server × O)
  unfolding Set.insert
  accept_client s o sock = Set.insert s.clients sock >>= λ clients.
      cb.on_client_accepted (record s { clients = clients }) o sock >>= λ (r : Server × O × Bool).
      ok (r.0, r.1)

  -- What follows the accept: the clients are served, and the finished ones released.
  unfoldable pub finish_turn : Ready → Server → O → Result (Turn O)
  unfolding clear_finished serve_all release_clients
  finish_turn ready s o = clear_finished s >>= λ t.
      serve_all cb ev ready t o >>= λ (r : Server × O).
      release_clients r.0 >>= λ u. ok (again u r.1)

  unfoldable pub accept_turn : Ready → Server → O → Result (Turn O)
  unfolding accept_client finish_turn
  accept_turn ready s o =
      if ready.can_read s.serv_sock
      then elim ev.accepted [
        | none ↦ ok (returned s o)
        | some sock ↦ accept_client s o sock >>= (λ (r : Server × O). finish_turn ready r.0 r.1)
      ]
      else finish_turn ready s o

  unfoldable pub turn : Server → O → Result (Turn O)
  unfolding watch highest accept_turn
  turn s o = do
    readers ← watch s.clients
    writers ← watch s.writing_sockets
    mx ← highest s
    if is_positive ev.selected
        then accept_turn
            (record {
              can_read = is_set (s.serv_sock ∷ readers) mx ev.readable;
              can_write = is_set writers mx ev.writable;
            })
            s o
        else ok (returned s o)

-- The rounds of the loop on a list of answers, until it returns or the list ends.
unfoldable pub run : {O : Type 0} → Callbacks O → List Events → Server → O → Result (Server × O)
unfolding turn
run cb [] s o = ok (s, o)
run cb (ev ∷ evs) s o =
    turn cb ev s o >>= (λ r. elim r [ again t p ↦ run cb evs t p | returned t p ↦ ok (t, p) ])
