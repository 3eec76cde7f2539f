-- ===== src/Server/Steady/Release.antt =====
-- What a round does before and after it serves the clients: the sets for select(), and the release
-- of the finished clients.
use librestserver.Util.Num.{IsWord, max_int}
use librestserver.Util.Vector.{Iterator, read_slot}
use librestserver.Util.Vector
use librestserver.Util.Vector.Shape.{Holds, read_slot-Holds}
use librestserver.Util.Vector.Destroy.{clear-Holds}
use librestserver.Util.Set.{Group}
use librestserver.Util.Set
use librestserver.Util.Set.Laws.{removed}
use librestserver.Util.Set.Updates.{erase-IsSetOf}
use librestserver.Util.Set.Max.{AllBelow, AtMost, occurs, max_element-AtMost}
use librestserver.Server.State.{Server}
use librestserver.Server.Loop.{
  watch_from, watch, highest, release_from, release_clients, clear_finished,
}
use librestserver.Server.Steady.{among, Steady, IsSocket}
use librestserver.Server.Steady.Finished.{Steady-finished}
use librestserver.Server.Steady.Writers.{among-removed}
use librestserver.Server.Steady.Clients.{among_first, among_none}
use librestserver.Prelude.{
  subst, ℕ, zero, suc, ◌+◌, ◌^◌, ◌≤◌, ◌<◌, ◌≡◌, refl, sym, ap, ◌∙◌, inl, inr, true, false, List, [],
  ◌∷◌, ◌++◌, append_assoc, append-nil, arith, ltb, leb, ◌==◌, if◌then◌else◌, Bool-cases, length,
  length-append, get_elem?-append_length, ok, ◌>>=◌, to_int, to_unsigned,
}

watch_from-Holds :
    (fuel : ℕ) (s : Group ℕ) (pre xs : List ℕ)
    → Holds s.v (pre ++ xs)
    → length xs < fuel
    → watch_from fuel s (record { k = length pre }) ≡ ok xs
unfolding watch_from Set.end Set.value Vector.next
watch_from-Holds zero s pre xs h lt = absurd (omega arith)
watch_from-Holds (suc fuel) s pre [] h lt =
    let past : leb s.v.size (length pre) ≡ true = ground (arith, h.counted, length-append pre []) in
    rw (past, watch_from)
watch_from-Holds (suc fuel) s pre (x ∷ xs) h lt =
    let inside : leb s.v.size (length pre) ≡ false =
      ground (arith, h.counted, length-append pre (x ∷ xs)) in
    let h' : Holds s.v ((pre ++ (x ∷ [])) ++ xs) = rw (append_assoc pre (x ∷ []) xs) h in
    let e : length pre + 1 ≡ length (pre ++ (x ∷ [])) = omega (arith, length-append pre (x ∷ [])) in
    let later = watch_from-Holds fuel s (pre ++ (x ∷ [])) xs h' (omega arith) in
    rw (inside, watch_from, read_slot-Holds (length pre) h (get_elem?-append_length pre x xs))
      (rw (e) (rw later refl))

pub watch-Holds : (s : Group ℕ) (xs : List ℕ) → Holds s.v xs → watch s ≡ ok xs
unfolding watch Vector.begin
watch-Holds s xs h = watch_from-Holds (suc s.v.size) s [] xs h (omega (arith, h.counted))

max_socket :
    (a b : ℕ)
    → a < 2 ^ 31
    → b < 2 ^ 31
    → (a ≤ to_unsigned 32 (max_int (to_int a) (to_int b)))
      × (b ≤ to_unsigned 32 (max_int (to_int a) (to_int b)))
unfolding max_int
max_socket a b h k = (ground arith, ground arith)

among-AtMost : (i m : ℕ) (xs : List ℕ) → among i xs ≡ true → AtMost xs m → i ≤ m
among-AtMost i m [] h le = absurd (ground (arith, among_none i))
among-AtMost i m (x ∷ xs) h le = ground (arith, among_first i x xs, among-AtMost i m xs, le)

occurs-below : (n m : ℕ) (xs : List ℕ) → occurs m xs ≡ true → AllBelow n xs → m < n
occurs-below n m [] h below = cc
occurs-below n m (x ∷ xs) h below = ground (arith, occurs-below n m xs)

-- The listening socket and the clients are among the descriptors that select() looks at.
pub highest-Steady :
    {s : Server} (cs : List ℕ) {fs : List ℕ}
    → Steady s cs fs
    → IsSocket s.serv_sock
    → (m : ℕ) × (highest s ≡ ok m) × (s.serv_sock ≤ m) × ((i : ℕ) → among i cs ≡ true → i ≤ m)
unfolding highest Set.is_empty
highest-Steady {s} [] h listening =
    let empty : (s.clients.v.size == 0) ≡ true = ground (arith, h.clients_of.holds.counted) in
    (
      s.serv_sock,
      rw empty refl,
      omega arith,
      λ i there. absurd (ground (arith, among_none i, there)),
    )
highest-Steady {s} (x ∷ xs) h listening =
    let some_clients : (s.clients.v.size == 0) ≡ false =
      ground (arith, h.clients_of.holds.counted) in
    let (m, e, there, most) =
      max_element-AtMost s.clients x xs h.compared h.clients_of.holds h.sockets in
    let (left, right) =
      max_socket s.serv_sock m listening (occurs-below (2 ^ 31) m (x ∷ xs) there h.sockets) in
    (
      to_unsigned 32 (max_int (to_int s.serv_sock) (to_int m)),
      rw some_clients (rw e refl),
      left,
      λ i in_xs. let le = among-AtMost i m (x ∷ xs) in_xs most in omega arith,
    )

AllBelow-removed : (n x : ℕ) (xs : List ℕ) → AllBelow n xs → AllBelow n (removed ◌==◌ IsWord x xs)
unfolding removed
AllBelow-removed n x [] h = tt
AllBelow-removed n x (y ∷ xs) h = elim (Bool-cases (y == x)) [
  | inl hit ↦ rw hit h.1
  | inr miss ↦ rw miss (h.0, AllBelow-removed n x xs h.1)
]

-- The server without one client.
abbrev without_client : Server → Vector.Vector ℕ → ℕ → Server
without_client s v j = record s {
  clients = record (s.clients) { v = v };
  closed = s.closed ++ (j ∷ []);
}

release_from-step :
    (n : ℕ) (s : Server) (k j : ℕ) (v : Vector.Vector ℕ)
    → read_slot s.finished_clients.slots k ≡ ok j
    → Set.erase s.clients j ≡ ok (record (s.clients) { v = v })
    → release_from (suc n) s k ≡ release_from n (without_client s v j) (k + 1)
unfolding release_from
release_from-step n s k j v e f =
    ap
      (λ q. q >>= λ sock. Set.erase s.clients sock >>= λ c.
        release_from n (record s { clients = c; closed = s.closed ++ (sock ∷ []) }) (k + 1))
      e
    ∙ ap
        (λ q. q >>= λ c.
          release_from n (record s { clients = c; closed = s.closed ++ (j ∷ []) }) (k + 1))
        f

-- The finished clients, and no others, are closed, in order, and forgotten.
abbrev pub Released : Server → Server → List ℕ → List ℕ → List ℕ → Type 0
Released s u cs ds fs =
    (u.closed ≡ s.closed ++ fs)
    × ((i : ℕ) → IsWord i → among i ds ≡ (if among i fs then false else among i cs))

release_from-Steady :
    (pre fs : List ℕ) {s : Server} {cs : List ℕ}
    → Steady s cs (pre ++ fs)
    → AllBelow (2 ^ 31) fs
    → (u : Server) × (ds : List ℕ) × (release_from (length fs) s (length pre) ≡ ok u)
      × Steady u ds (pre ++ fs)
      × Released s u cs ds fs
release_from-Steady pre [] {s} {cs} h below = (
  s,
  cs,
  unfold release_from in refl,
  h,
  (sym (append-nil s.closed), λ i word. rw (among_none i) refl),
)
release_from-Steady pre (j ∷ fs) {s} {cs} h below =
    let word : IsWord j = omega arith in
    let (v, e, set_of) = erase-IsSetOf ◌==◌ IsWord j h.clients_of word in
    let here = read_slot-Holds (length pre) h.finished_of (get_elem?-append_length pre j fs) in
    let split : pre ++ (j ∷ fs) ≡ (pre ++ (j ∷ [])) ++ fs = sym (append_assoc pre (j ∷ []) fs) in
    let place : length pre + 1 ≡ length (pre ++ (j ∷ [])) =
      omega (arith, length-append pre (j ∷ [])) in
    let t = without_client s v j in
    let steady : Steady t (removed ◌==◌ IsWord j cs) (pre ++ (j ∷ fs)) = record {
      clients_of = set_of;
      compared = h.compared;
      sockets = AllBelow-removed (2 ^ 31) j cs h.sockets;
      finished_of = h.finished_of;
      finished_sockets = h.finished_sockets;
      writing = h.writing;
      entries = h.entries;
      served = record {
        tracks = record { sockets = h.served.tracks.sockets; data_of = h.served.tracks.data_of };
        known = h.served.known;
        ready = h.served.ready;
      };
    } in
    let (u, ds, f, g, (closed, left)) =
      release_from-Steady (pre ++ (j ∷ [])) fs
        (subst (λ l. Steady t (removed ◌==◌ IsWord j cs) l) split steady) below.1 in
    (
      u,
      ds,
      release_from-step (length fs) s (length pre) j v here e
          ∙ ap (release_from (length fs) t) place
          ∙ f,
      subst (λ l. Steady u ds l) (sym split) g,
      (
        closed ∙ append_assoc s.closed (j ∷ []) fs,
        λ i word_i.
            left i word_i
            ∙ ground (arith, among-removed j i h.clients_of word word_i, among_first i j fs),
      ),
    )

pub release_clients-Steady :
    {s : Server} {cs fs : List ℕ}
    → Steady s cs fs
    → (u : Server) × (ds : List ℕ) × (release_clients s ≡ ok u)
      × Steady u ds fs
      × Released s u cs ds fs
unfolding release_clients
release_clients-Steady {s} {cs} {fs} h =
    let (u, ds, e, g, r) = release_from-Steady [] fs h h.finished_sockets in
    (u, ds, ap (λ n. release_from n s 0) h.finished_of.counted ∙ e, g, r)

-- At the start of a round no client is finished.
pub clear_finished-Steady :
    {s : Server} {cs fs : List ℕ}
    → Steady s cs fs
    → (v : Vector.Vector ℕ) × (clear_finished s ≡ ok (record s { finished_clients = v }))
      × Steady (record s { finished_clients = v }) cs []
unfolding clear_finished
clear_finished-Steady {s} {cs} {fs = []} h =
    let empty : ltb 0 s.finished_clients.size ≡ false = ground (arith, h.finished_of.counted) in
    (s.finished_clients, rw empty refl, Steady-finished h h.finished_of tt)
clear_finished-Steady {s} {cs} {fs = f ∷ fs} h =
    let some_finished : ltb 0 s.finished_clients.size ≡ true =
      ground (arith, h.finished_of.counted) in
    let (v, e, g, _) = clear-Holds h.finished_of in
    (
      v,
      rw some_finished (ap (λ q. q >>= λ r. ok (record s { finished_clients = r.0 })) e),
      Steady-finished h g tt,
    )
