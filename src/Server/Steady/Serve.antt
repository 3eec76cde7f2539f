-- ===== src/Server/Steady/Serve.antt =====
-- A client whose response is through, in a round of the loop.
use librestserver.Util.Set
use librestserver.Server.State.{Server, Events, Callbacks}
use librestserver.Server.Send.{handle_client_write}
use librestserver.Server.Loop.{
  Ready, release_client, drop_writer, write_turn, read_turn, wants_write, serve,
}
use librestserver.Server.Send.Delivery.{Pending, handle_client_write-done}
use librestserver.Server.Steady.{IsSocket, Steady}
use librestserver.Server.Steady.Finished.{release_client-Steady}
use librestserver.Server.Steady.Write.{drop_writer-Steady}
use librestserver.Libc.{Block}
use librestserver.Prelude.{
  ℕ, ◌≡◌, refl, ap, ◌∙◌, Bool, true, false, ◌&&◌, not, List, [], ◌∷◌, ◌++◌, arith, if◌then◌else◌,
  assertion, Result, ok, ◌>>=◌, ◌>>◌, guard,
}

module _ {O : Type 0} (cb : Callbacks O) (ev : Events) (ready : Ready) where
  -- The end of a client's turn.
  abbrev settle : ℕ → Server × O × Bool → Result (Server × O)
  settle j w = if w.2 then (release_client w.0 j >>= λ t. ok (t, w.1)) else ok (w.0, w.1)

  -- What follows the read.
  abbrev after_read : ℕ → Server × O × Bool → Result (Server × O)
  after_read j r =
      guard (not (ready.can_read j && r.2)) assertion
      >> (wants_write cb ev ready r.0 j >>= λ wants.
          (if wants then write_turn cb ev ready r.0 r.1 j else ok r) >>= settle j)

  serve-parts :
      (s : Server) (o : O) (j : ℕ) (u : Server) (p : O) (wants : Bool) (w : Server × O × Bool)
      (r : Server × O)
      → read_turn cb ev ready s o j ≡ ok (u, p, false)
      → wants_write cb ev ready u j ≡ ok wants
      → (if wants then write_turn cb ev ready u p j else ok (u, p, false)) ≡ ok w
      → settle j w ≡ ok r
      → serve cb ev ready s o j ≡ ok r
  unfolding serve
  serve-parts s o j u p wants w r e1 e2 e3 e4 =
      let passed : guard (not (ready.can_read j && false)) assertion ≡ ok tt = ground arith in
      ap (λ q. q >>= after_read j) e1
      ∙ ap
          (λ q.
            q
            >> (wants_write cb ev ready u j >>= λ b.
                (if b then write_turn cb ev ready u p j else ok (u, p, false)) >>= settle j))
          passed
      ∙ ap
          (λ q.
            q >>= λ b. (if b then write_turn cb ev ready u p j else ok (u, p, false)) >>= settle j)
          e2
      ∙ ap (λ q. q >>= settle j) e3
      ∙ e4

  -- What follows the write.
  abbrev written : Server → O → Server × O × Bool
  written t p = (t, p, true)

  abbrev after_write : ℕ → Server × O × Bool → Result (Server × O × Bool)
  after_write j r =
      if r.2
      then (drop_writer cb ev ready r.0 j >>= λ t. ok (written t r.1))
      else ok (r.0, r.1, false)

  write_turn-parts :
      (s : Server) (o : O) (j : ℕ) (u v : Server) (p : O) (b : Bool)
      → handle_client_write cb ev s o j ≡ ok (u, p, b)
      → drop_writer cb ev ready u j ≡ ok v
      → write_turn cb ev ready s o j ≡ ok (if b then v else u, p, b)
  unfolding write_turn
  write_turn-parts s o j u v p true e f =
      ap (λ q. q >>= after_write j) e ∙ ap (λ q. q >>= λ t. ok (written t p)) f
  write_turn-parts s o j u v p false e f = ap (λ q. q >>= after_write j) e

  -- A socket that can be written to, whose response is through, and whose owner asks for its release.
  pub serve-through :
      {s : Server} {cs fs : List ℕ} {sent post : Block} (o p : O) (j : ℕ)
      → Steady s cs fs
      → IsSocket j
      → ready.can_read j ≡ false
      → ready.can_write j ≡ true
      → Set.contains s.writing_sockets j ≡ ok true
      → Pending s j sent [] post
      → cb.on_data_sent s o j ≡ ok (s, p, true)
      → (u : Server) × (serve cb ev ready s o j ≡ ok (u, p))
        × Steady u cs (fs ++ (j ∷ []))
        × (u.closed ≡ s.closed)
  unfolding read_turn wants_write
  serve-through {s} o p j h socket unread writable watched pending told =
      let (t, e, g, same) = drop_writer-Steady cb ev ready j h (omega arith) in
      let (u, f, k, same2) = release_client-Steady j g socket in
      (
        u,
        serve-parts s o j s o true (t, p, true) (u, p) (rw unread refl) (rw writable watched)
            (write_turn-parts s o j s t p true (handle_client_write-done cb ev o j pending ∙ told)
              e)
            (rw f refl),
        k,
        same2 ∙ same,
      )
