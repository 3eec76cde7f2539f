-- ===== src/Server/Plain/Cut.antt =====
-- What the build without THREAD_FOR_HANDLER makes of a response that send() takes in part, and of a
-- peer that has gone.
use librestserver.Libc.{Block}
use librestserver.Util.Num.{IsWord}
use librestserver.Util.Set
use librestserver.Util.Set.Laws.{IsSetOf, contains-IsSetOf, removed}
use librestserver.Util.Set.Updates.{added, insert-IsSetOf, erase-IsSetOf}
use librestserver.Util.Vector.Shape.{Holds, push_back-Holds}
use librestserver.Server.State.{Server, Events, Callbacks}
use librestserver.Server.Send.{kernel_send, whole}
use librestserver.Server.Send.Progress.{whole-Sending, kernel_send-Sending}
use librestserver.Server.Send.Delivery.{sent_to, sent_to-more}
use librestserver.Server.Loop.{Ready, release_client, wants_write}
use librestserver.Server.Loop
use librestserver.Server.Send
use librestserver.Server.Plain.{
  send, serve, handle_client_read, handle_client_write, write_turn, read_turn,
}
use librestserver.Server.Steady.{among}
use librestserver.Server.Steady.Writers.{among-added}
use librestserver.Prelude.{
  ℕ, ◌≤◌, ◌≡◌, refl, ap, ◌∙◌, Bool, true, false, none, some, List, [], ◌∷◌, ◌++◌, arith, ◌==◌,
  if◌then◌else◌, length, take, Result, ok, ◌>>=◌,
}

module _ {O : Type 0} (cb : Callbacks O) (ev : Events) (ready : Ready) where
  -- What the turn of a client ends with, by the answer of the owner.
  abbrev pub ended : ℕ → Server × O × Bool → Result (Server × O)
  ended sock w = if w.2 then (release_client w.0 sock >>= λ t. ok (t, w.1)) else ok (w.0, w.1)

  serve-written :
      (s : Server) (o : O) (sock : ℕ) (w : Set.Group ℕ)
      → ready.can_read sock ≡ false
      → wants_write cb ev ready s sock ≡ ok true
      → Set.erase s.writing_sockets sock ≡ ok w
      → serve cb ev ready s o sock
        ≡ (cb.on_data_sent (record s { writing_sockets = w }) o sock >>= ended sock)
  unfolding serve read_turn write_turn handle_client_write
  serve-written s o sock w quiet wants erased = rw quiet (rw wants (rw erased refl))

  -- A response of which the kernel takes the first `t` bytes: in the next turn of its writable
  -- client, the owner is told that all is sent. The others of its bytes reach nobody.
  pub send-cut :
      (s : Server) {writing : List ℕ} (o : O) (sock t : ℕ) (text post : Block)
      → IsSetOf ◌==◌ IsWord s.writing_sockets writing
      → IsWord sock
      → t ≤ length text
      → ready.can_read sock ≡ false
      → ready.can_write sock ≡ true
      → (u : Server) × ((send s (some t) sock (text ++ post) (length text) >>= λ r.
            serve cb ev ready r o sock)
          ≡ (cb.on_data_sent u o sock >>= ended sock))
        × IsSetOf ◌==◌ IsWord u.writing_sockets
            (removed ◌==◌ IsWord sock (added ◌==◌ IsWord sock writing))
        × (sent_to sock u.wire ≡ sent_to sock s.wire ++ take t text)
  unfolding send wants_write
  send-cut s {writing} o sock t text post h word le quiet writable =
      let (w, e1, g) = insert-IsSetOf ◌==◌ IsWord sock h word in
      let (v, e2, k) = erase-IsSetOf ◌==◌ IsWord sock g word in
      let taken = kernel_send-Sending t (whole-Sending text post) in
      let wire = s.wire ++ ((sock, take t text) ∷ []) in
      let s1 : Server = record s {
        writing_sockets = record (s.writing_sockets) { v = w };
        wire = wire;
      } in
      let there : among sock (added ◌==◌ IsWord sock writing) ≡ true =
        among-added sock sock h word word ∙ ground arith in
      let wants : wants_write cb ev ready s1 sock ≡ ok true =
        rw writable (contains-IsSetOf ◌==◌ IsWord sock g word ∙ ap ok there) in
      (
        record s { writing_sockets = record (s.writing_sockets) { v = v }; wire = wire },
        rw e1 (
            rw taken
              (serve-written s1 o sock (record (s.writing_sockets) { v = v }) quiet wants e2)),
        k,
        sent_to-more sock s.wire (take t text),
      )

  read_turn-closed :
      (s : Server) (o : O) (sock : ℕ)
      → ready.can_read sock ≡ true
      → ev.received sock ≡ some []
      → read_turn cb ev ready s o sock ≡ ok (s, o, true)
  unfolding read_turn handle_client_read
  read_turn-closed s o sock readable closed = rw readable (
      ap
        (λ r. elim r as (λ x. Result (Server × O × Bool)) [
          | none ↦ ok (s, o, true)
          | some bytes ↦
              if length bytes == 0 then ok (s, o, true) else cb.on_data_received s o sock bytes
        ])
        closed)

  -- A peer that closed its connection, where nothing can be written: this build puts the client among
  -- the finished ones of the round, the other one leaves everything as it was, and so keeps it.
  pub serve-closed :
      (s : Server) {fs : List ℕ} (o : O) (sock : ℕ)
      → Holds s.finished_clients fs
      → ready.can_read sock ≡ true
      → ready.can_write sock ≡ false
      → ev.received sock ≡ some []
      → (u : Server) × (serve cb ev ready s o sock ≡ ok (u, o))
        × Holds u.finished_clients (fs ++ (sock ∷ []))
        × (Loop.serve cb ev ready s o sock ≡ ok (s, o))
  unfolding serve wants_write release_client Loop.serve Loop.read_turn Send.handle_client_read
  serve-closed s o sock h readable quiet closed =
      let (v, e, g) = push_back-Holds sock h in
      (
        record s { finished_clients = v },
        rw (read_turn-closed s o sock readable closed) (rw quiet (rw e refl)),
        g,
        rw readable (rw closed (rw quiet refl)),
      )
