-- ===== src/Server/Steady/Write.antt =====
-- The branch of a writable socket, and the end of a response, on a steady server.
use librestserver.Server.Steady.Send.{with_writers, Steady-with_writers}
use librestserver.Util.Num.{IsWord, int_comparator-Compares}
use librestserver.Util.Map.Shape.{lookup}
use librestserver.Util.Map.Erase.{without}
use librestserver.Util.Map.Laws.{find-erase, lookup-without}
use librestserver.Util.Set.Laws.{removed}
use librestserver.Util.Set.Updates.{contains-erase}
use librestserver.Server.State.{WriterData, Server, Events, Callbacks}
use librestserver.Server.Send.{advance, write_more}
use librestserver.Server.Send.Delivery.{write_more-sent}
use librestserver.Server.Loop.{Ready, drop_writer}
use librestserver.Server.Steady.{among, IsReady, Served, Steady}
use librestserver.Server.Steady.Writers.{
  advance-IsReady, kernel_send-ready, set-IsReady, among-removed,
}
use librestserver.Prelude.{
  ℕ, ◌≡◌, refl, sym, ◌∙◌, true, false, none, some, List, [], ◌∷◌, ◌++◌, arith, ◌==◌, if◌then◌else◌,
  get_elem?, set, ok, is_positive,
}

module _ {O : Type 0} (cb : Callbacks O) (ev : Events) where
  -- More of a response is sent.
  pub write_more-Steady :
      {s : Server} {cs fs : List ℕ} (socket at t : ℕ) (w : WriterData) (h : Steady s cs fs)
      → ev.taken socket ≡ some t
      → get_elem? s.writers at ≡ some w
      → IsReady w
      → is_positive w.len ≡ true
      → (u : Server) × (write_more cb ev s socket at w ≡ ok u) × Steady u cs fs
  write_more-Steady {s} {cs} {fs} socket at t w h e stored is_ready more =
      let (k, n, place, some_left, le) = is_ready more in
      let (bytes, sent) = kernel_send-ready w k n t place some_left le in
      let moved = advance w (some t) in
      let writers = set s.writers at moved in
      let wire = s.wire ++ ((socket, bytes) ∷ []) in
      let served : Served (with_writers s s.writing_sockets s.writers_data writers wire) h.writing
          h.entries =
        record {
          tracks = record { sockets = h.served.tracks.sockets; data_of = h.served.tracks.data_of };
          known = h.served.known;
          ready = λ j i word_j f.
              let (x, g, r) = h.served.ready j i word_j f in
              set-IsReady s.writers at i moved g r (advance-IsReady w k n t place some_left le);
        } in
      (
        with_writers s s.writing_sockets s.writers_data writers wire,
        write_more-sent cb ev s socket at w t bytes e sent,
        Steady-with_writers s.writing_sockets s.writers_data writers wire h served,
      )

  -- The end of a response takes its writer out of both containers.
  pub drop_writer-Steady :
      {s : Server} {cs fs : List ℕ} (ready : Ready) (j : ℕ)
      → Steady s cs fs
      → IsWord j
      → (u : Server) × (drop_writer cb ev ready s j ≡ ok u) × Steady u cs fs × (u.closed ≡ s.closed)
  unfolding drop_writer
  drop_writer-Steady {s} {cs} {fs} ready j h word =
      let tracks = h.served.tracks in
      let (w, e1, set_of, _) = contains-erase ◌==◌ IsWord j j tracks.sockets word word in
      let (m, e2, map_of, _) = find-erase ◌==◌ IsWord j j tracks.data_of word word in
      let reps = tracks.data_of.represents in
      let found : (i : ℕ)
          → IsWord i
          → lookup ◌==◌ i (without ◌==◌ j h.entries)
            ≡ (if j == i then none else lookup ◌==◌ i h.entries) =
        λ i word_i.
          lookup-without ◌==◌ IsWord int_comparator-Compares i j h.entries word_i word reps.keys
            tracks.data_of.distinct in
      let served : Served (with_writers s w m s.writers s.wire) (removed ◌==◌ IsWord j h.writing)
          (without ◌==◌ j h.entries) =
        record {
          tracks = record { sockets = set_of; data_of = map_of };
          known = λ i word_i there.
              kept_entry i word_i (sym (among-removed j i tracks.sockets word word_i) ∙ there)
                (found i word_i);
          ready = λ i at word_i e.
              h.served.ready i at word_i (old_entry i at (sym (found i word_i) ∙ e));
        } in
      (
        with_writers s w m s.writers s.wire,
        rw e1 (rw e2 refl),
        Steady-with_writers w m s.writers s.wire h served,
        refl,
      )
    where
      kept_entry :
          (i : ℕ)
          → IsWord i
          → (if i == j then false else among i h.writing) ≡ true
          → lookup ◌==◌ i (without ◌==◌ j h.entries)
            ≡ (if j == i then none else lookup ◌==◌ i h.entries)
          → (at : ℕ) × (lookup ◌==◌ i (without ◌==◌ j h.entries) ≡ some at)
      kept_entry i word_i there e =
          let differ : (j == i) ≡ false = ground arith in
          let old : among i h.writing ≡ true = ground arith in
          let (at, f) = h.served.known i word_i old in (at, e ∙ rw differ f)

      old_entry :
          (i at : ℕ)
          → (if j == i then none else lookup ◌==◌ i h.entries) ≡ some at
          → lookup ◌==◌ i h.entries ≡ some at
      old_entry i at e = ground arith
