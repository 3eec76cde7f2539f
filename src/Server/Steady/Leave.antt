-- ===== src/Server/Steady/Leave.antt =====
-- A round of the loop in which the response of a client is through.
use librestserver.Libc.{Block}
use librestserver.Util.Num.{IsWord}
use librestserver.Util.Set
use librestserver.Util.Set.Laws.{member, contains-IsSetOf, NoRepeat}
use librestserver.Server.State.{Server, Events, Callbacks}
use librestserver.Server.Loop.{again, Ready, is_set, mem, accept_turn, turn}
use librestserver.Server.Send.Delivery.{Pending}
use librestserver.Server.Steady.{among, IsSocket, Steady}
use librestserver.Server.Steady.Clients.{among_first, among_none, among-below, serve_all-one}
use librestserver.Server.Steady.Serve.{serve-through}
use librestserver.Server.Steady.Release.{
  watch-Holds, highest-Steady, clear_finished-Steady, release_clients-Steady,
}
use librestserver.Server.Steady.Rounds.{finish_turn-parts, turn-parts, accept_turn-quiet}
use librestserver.Prelude.{
  ℕ, ◌^◌, ◌≡◌, refl, sym, ap, ◌∙◌, inl, inr, Bool, true, false, List, [], ◌∷◌, ◌++◌, arith, ◌==◌,
  if◌then◌else◌, Bool-cases, Result, ok, is_positive,
}

-- select() finds that the socket `j` can be written to, and no other socket is ready.
pub record IsWritable (ev : Events) (j : ℕ) : Type 0 where
  pub selected : is_positive ev.selected ≡ true
  pub unread : (i : ℕ) → ev.readable i ≡ false
  pub writable : ev.writable j ≡ true
  pub idle : (i : ℕ) → (i == j) ≡ false → ev.writable i ≡ false

mem-among : (i : ℕ) (xs : List ℕ) → mem i xs ≡ among i xs
unfolding mem member
mem-among i [] = refl
mem-among i (x ∷ xs) = ground (arith, mem-among i xs)

among_middle : (j : ℕ) (before after : List ℕ) → among j (before ++ (j ∷ after)) ≡ true
among_middle j [] after = among_first j j after ∙ ground arith
among_middle j (x ∷ before) after =
    among_first j x (before ++ (j ∷ after)) ∙ ground (arith, among_middle j before after)

-- The others of a list without repetition differ from an element.
before-differ :
    (i j : ℕ) (before after : List ℕ)
    → NoRepeat ◌==◌ IsWord (before ++ (j ∷ after))
    → among i before ≡ true
    → (i == j) ≡ false
before-differ i j [] after h there = absurd (ground (arith, among_none i))
before-differ i j (x ∷ before) after h there = elim (Bool-cases (x == i)) [
  | inl hit ↦ elim (Bool-cases (i == j)) [
    | inr differ ↦ differ
    | inl same ↦
        let e : j ≡ x = ground arith in
        absurd (
          ground
            (arith, h.0, ap (λ n. among n (before ++ (j ∷ after))) e, among_middle j before after))
  ]
  | inr miss ↦ before-differ i j before after h.1 (ground (arith, among_first i x before))
]

after-differ :
    (i j : ℕ) (before after : List ℕ)
    → NoRepeat ◌==◌ IsWord (before ++ (j ∷ after))
    → among i after ≡ true
    → (i == j) ≡ false
after-differ i j [] after h there = elim (Bool-cases (i == j)) [
  | inr differ ↦ differ
  | inl same ↦
      let e : i ≡ j = ground arith in absurd (ground (arith, h.0, ap (λ n. among n after) e))
]
after-differ i j (x ∷ before) after h there = after-differ i j before after h.1 there

module _ {O : Type 0} (cb : Callbacks O) (ev : Events) where
  -- The response of the client `j` is through and its owner asks for its release: the socket is closed,
  -- and the client is the only one that the server forgets.
  pub turn-through :
      {s : Server} {fs : List ℕ} (before after : List ℕ) {sent post : Block} (o : O) (j : ℕ)
      (Left : O → Type 0)
      → Steady s (before ++ (j ∷ after)) fs
      → IsWritable ev j
      → IsSocket s.serv_sock
      → Set.contains s.writing_sockets j ≡ ok true
      → Pending s j sent [] post
      → ((t : Server) → (p : O) × (cb.on_data_sent t o j ≡ ok (t, p, true)) × Left p)
      → (u : Server) × (p : O) × (ds : List ℕ) × (turn cb ev s o ≡ ok (again u p))
        × Steady u ds (j ∷ [])
        × (u.closed ≡ s.closed ++ (j ∷ []))
        × ((i : ℕ)
            → IsWord i
            → among i ds ≡ (if among i (j ∷ []) then false else among i (before ++ (j ∷ after))))
        × Left p
  turn-through {s} {fs} before after {sent} {post} o j Left h found listening watched pending
        tells =
      let cs = before ++ (j ∷ after) in
      let there : among j cs ≡ true = among_middle j before after in
      let (mx, e3, _, below) = highest-Steady cs h listening in
      let small : IsSocket j = among-below (2 ^ 31) j cs there h.sockets in
      let ready : Ready = record {
        can_read = is_set (s.serv_sock ∷ cs) mx ev.readable;
        can_write = is_set h.writing mx ev.writable;
      } in
      let unread : (i : ℕ) → ready.can_read i ≡ false = λ i. rw (found.unread i) (ground arith) in
      let (v, e4, g) = clear_finished-Steady h in
      let t : Server = record s { finished_clients = v } in
      let contained : ◌≡◌ {A = Result Bool} (ok (among j h.writing)) (ok true) =
        sym (contains-IsSetOf ◌==◌ IsWord j h.served.tracks.sockets (omega arith)) ∙ watched in
      let writable : ready.can_write j ≡ true =
        rw (mem-among j h.writing, inner contained, found.writable)
          (ground (arith, below j there)) in
      let (p, told, left) = tells t in
      let pending' : Pending t j sent [] post = record {
        at = pending.at;
        writer = pending.writer;
        found = pending.found;
        stored = pending.stored;
        progress = pending.progress;
      } in
      let (u, e5, k, same) =
        serve-through cb ev ready o p j g small (unread j) writable watched pending' told in
      let others : (i : ℕ)
          → (i == j) ≡ false
          → (ready.can_read i ≡ false) × (ready.can_write i ≡ false) =
        λ i differ. (unread i, rw (found.idle i differ) (ground arith)) in
      let distinct = h.clients_of.distinct in
      let (w, ds, e6, m, (closed, kept)) = release_clients-Steady k in
      (
        w,
        p,
        ds,
        turn-parts cb ev s o cs h.writing mx (accept_turn cb ev ready s o)
              (watch-Holds s.clients cs h.clients_of.holds)
              (watch-Holds s.writing_sockets h.writing h.served.tracks.sockets.holds) e3 refl
            ∙ rw found.selected refl
            ∙ accept_turn-quiet cb ev ready s o (unread s.serv_sock)
            ∙ finish_turn-parts cb ev ready s o t u p w e4
                (serve_all-one cb ev ready t o before after j u p g.clients_of.holds
                  (λ i in_list. others i (before-differ i j before after distinct in_list))
                  (λ i in_list. others i (after-differ i j before after distinct in_list)) e5
                  k.clients_of.holds)
                e6,
        m,
        closed ∙ ap (λ l. l ++ (j ∷ [])) same,
        kept,
        left,
      )
    where
      inner : {b c : Bool} → ◌≡◌ {A = Result Bool} (ok b) (ok c) → b ≡ c
      inner e = cc
