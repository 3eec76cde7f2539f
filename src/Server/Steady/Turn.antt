-- ===== src/Server/Steady/Turn.antt =====
-- A round of the loop in which a client connects.
use librestserver.Util.Num.{IsWord}
use librestserver.Util.Set.Max.{AllBelow}
use librestserver.Util.Set.Updates.{added, insert-IsSetOf}
use librestserver.Server.State.{Server, Events, Callbacks}
use librestserver.Server.Loop.{
  mem, again, Ready, is_set, finish_turn, accept_turn, turn, release_from, release_clients,
}
use librestserver.Util.Vector.{Vector}
use librestserver.Util.Vector.Shape.{Holds}
use librestserver.Util.Set
use librestserver.Server.Steady.{among, IsSocket, Steady}
use librestserver.Server.Steady.Finished.{AllBelow-append}
use librestserver.Server.Steady.Clients.{serve_all-idle}
use librestserver.Server.Steady.Release.{watch-Holds, highest-Steady, clear_finished-Steady}
use librestserver.Server.Steady.Rounds.{
  finish_turn-parts, accept_client-parts, turn-parts, accept_turn-accepted,
}
use librestserver.Prelude.{
  ℕ, ◌^◌, ◌<◌, ◌≡◌, refl, ap, ◌∙◌, inl, inr, Bool, true, false, some, List, [], ◌∷◌, arith, ◌==◌,
  Bool-cases, ok, is_positive,
}

AllBelow-added :
    (n x : ℕ) (xs : List ℕ) → AllBelow n xs → x < n → AllBelow n (added ◌==◌ IsWord x xs)
AllBelow-added n x xs h lt = elim (Bool-cases (among x xs)) [
  | inl old ↦ rw old h
  | inr new ↦ rw new (AllBelow-append n xs x h lt)
]

-- select() finds the listening socket ready and no other one, and accept() returns the socket `j`.
pub record IsKnock (s : Server) (ev : Events) (cs : List ℕ) (j : ℕ) : Type 0 where
  pub selected : is_positive ev.selected ≡ true
  pub knocking : ev.readable s.serv_sock ≡ true
  pub accepted : ev.accepted ≡ some j
  pub socket : IsSocket j
  pub listening : IsSocket s.serv_sock
  pub apart : among s.serv_sock (added ◌==◌ IsWord j cs) ≡ false
  pub idle :
      (i : ℕ) → (i == s.serv_sock) ≡ false → (ev.readable i ≡ false) × (ev.writable i ≡ false)

others_differ : (i k : ℕ) (xs : List ℕ) → among k xs ≡ false → among i xs ≡ true → (i == k) ≡ false
others_differ i k xs absent there = elim (Bool-cases (i == k)) [
  | inr differ ↦ differ
  | inl same ↦ let e : i ≡ k = ground arith in absurd (ground (arith, ap (λ n. among n xs) e))
]

-- The server with one more client.
abbrev pub with_client : Server → Vector ℕ → Server
with_client s v = record s { clients = record (s.clients) { v = v } }

-- The insertion of a client into a steady server.
with_client-Steady :
    {s : Server} {cs fs : List ℕ} (j : ℕ)
    → Steady s cs fs
    → IsSocket j
    → (v : Vector ℕ) × (Set.insert s.clients j ≡ ok (record (s.clients) { v = v }))
      × Steady (with_client s v) (added ◌==◌ IsWord j cs) fs
with_client-Steady {s} {cs} {fs} j h socket =
    let (v, e, set_of) = insert-IsSetOf ◌==◌ IsWord j h.clients_of (omega arith) in
    (
      v,
      e,
      record {
        clients_of = set_of;
        compared = h.compared;
        sockets = AllBelow-added (2 ^ 31) j cs h.sockets socket;
        finished_of = h.finished_of;
        finished_sockets = h.finished_sockets;
        writing = h.writing;
        entries = h.entries;
        served = record {
          tracks = record { sockets = h.served.tracks.sockets; data_of = h.served.tracks.data_of };
          known = h.served.known;
          ready = h.served.ready;
        };
      },
    )

mem_first : (x : ℕ) (xs : List ℕ) → mem x (x ∷ xs) ≡ true
unfolding mem
mem_first x xs = ground arith

-- No client is finished.
release_clients-none : (s : Server) → Holds s.finished_clients [] → release_clients s ≡ ok s
unfolding release_clients release_from
release_clients-none s h = ap (λ n. release_from n s 0) h.counted

module _ {O : Type 0} (cb : Callbacks O) (ev : Events) where
  finish_turn-idle :
      (ready : Ready) {s : Server} {cs fs : List ℕ} (o : O)
      → Steady s cs fs
      → ((i : ℕ) → among i cs ≡ true → (ready.can_read i ≡ false) × (ready.can_write i ≡ false))
      → (u : Server) × (finish_turn cb ev ready s o ≡ ok (again u o))
        × Steady u cs []
        × (u.closed ≡ s.closed)
  finish_turn-idle ready {s} {cs} o h idle =
      let (v, e, g) = clear_finished-Steady h in
      let t : Server = record s { finished_clients = v } in
      (
        t,
        finish_turn-parts cb ev ready s o t t o t e
            (serve_all-idle cb ev ready t o cs g.clients_of.holds idle)
            (release_clients-none t g.finished_of),
        g,
        refl,
      )

  -- A round in which a client connects, for an owner that takes it and leaves the server as it is.
  pub turn-accepted :
      {s : Server} {cs fs : List ℕ} (o p : O) (j : ℕ) (b : Bool)
      → Steady s cs fs
      → IsKnock s ev cs j
      → ((t : Server) → cb.on_client_accepted t o j ≡ ok (t, p, b))
      → (u : Server) × (turn cb ev s o ≡ ok (again u p))
        × Steady u (added ◌==◌ IsWord j cs) []
        × (u.closed ≡ s.closed)
  turn-accepted {s} {cs} {fs} o p j b h knock takes =
      let (mx, e3, le, _) = highest-Steady cs h knock.listening in
      let ready : Ready = record {
        can_read = is_set (s.serv_sock ∷ cs) mx ev.readable;
        can_write = is_set h.writing mx ev.writable;
      } in
      let readable : ready.can_read s.serv_sock ≡ true =
        rw (mem_first s.serv_sock cs, knock.knocking) (ground (arith, le)) in
      let (v, e, g) = with_client-Steady j h knock.socket in
      let (u, f, k, same) = finish_turn-idle ready p g (λ i there.
        let (unread, unwritten) =
          knock.idle i (others_differ i s.serv_sock (added ◌==◌ IsWord j cs) knock.apart there) in
        (rw unread (ground arith), rw unwritten (ground arith))) in
      (
        u,
        turn-parts cb ev s o cs h.writing mx (accept_turn cb ev ready s o)
              (watch-Holds s.clients cs h.clients_of.holds)
              (watch-Holds s.writing_sockets h.writing h.served.tracks.sockets.holds) e3 refl
            ∙ rw knock.selected refl
            ∙ accept_turn-accepted cb ev ready s o j (with_client s v) p readable knock.accepted (
                accept_client-parts cb ev s o j (record (s.clients) { v = v }) (with_client s v) p b
                  e (takes (with_client s v)))
            ∙ f,
        k,
        same,
      )
