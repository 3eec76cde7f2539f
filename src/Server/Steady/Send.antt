-- ===== src/Server/Steady/Send.antt =====
-- RST_selecttcpserver_send on a steady server.
use librestserver.Libc.{Block}
use librestserver.Util.Num.{IsWord}
use librestserver.Util.Map
use librestserver.Util.Map.Shape.{has, inserted}
use librestserver.Util.Map.Laws.{find-insert}
use librestserver.Util.Set
use librestserver.Util.Set.Updates.{added, contains-insert}
use librestserver.Server.State.{WriterData, Server}
use librestserver.Server.Send.{advance, whole, send}
use librestserver.Server.Send.Start.{send-parts}
use librestserver.Server.Steady.{among, Served, Steady}
use librestserver.Server.Steady.Writers.{
  advance-IsReady, kernel_send-ready, lookup-inserted_cases, lookup-inserted_there, has-lookup,
  among-added,
}
use librestserver.Prelude.{
  ℕ, ◌≤◌, ◌≡◌, refl, sym, ap, ◌∙◌, inl, inr, true, ◌||◌, some, List, [], ◌∷◌, ◌++◌, arith, ◌==◌,
  Bool-cases, length, get_elem?, get_elem?-append_length, get_elem?-append_left, get_elem?-lt, ok,
}

-- A server with other writers.
abbrev pub with_writers :
    Server → Set.Group ℕ → Map.Table ℕ → List WriterData → List (ℕ × Block) → Server
with_writers s writing m writers wire = record s {
  writing_sockets = writing;
  writers_data = m;
  writers = writers;
  wire = wire;
}

pub Steady-with_writers :
    {s : Server} {cs fs : List ℕ} (w : Set.Group ℕ) (m : Map.Table ℕ) (writers : List WriterData)
    (wire : List (ℕ × Block)) {writing : List ℕ} {entries : List (ℕ × ℕ)}
    → Steady s cs fs
    → Served (with_writers s w m writers wire) writing entries
    → Steady (with_writers s w m writers wire) cs fs
Steady-with_writers w m writers wire {writing} {entries} h served = record {
  clients_of = h.clients_of;
  compared = h.compared;
  sockets = h.sockets;
  finished_of = h.finished_of;
  finished_sockets = h.finished_sockets;
  writing = writing;
  entries = entries;
  served = served;
}

-- A response of the owner: the call succeeds, whatever the kernel takes of it.
pub send-Steady :
    {s : Server} {cs fs : List ℕ} (t socket size : ℕ) (buf : Block)
    → Steady s cs fs
    → IsWord socket
    → size ≤ length buf
    → (u : Server) × (send s (some t) socket buf size ≡ ok u) × Steady u cs fs
send-Steady {s} {cs} {fs} t socket size buf h word le =
    let tracks = h.served.tracks in
    let (bytes, e2) = kernel_send-ready (whole buf size) 0 size t refl refl (omega arith) in
    let (w, e1, set_of, _) = contains-insert ◌==◌ IsWord socket socket tracks.sockets word word in
    let (m, e3, map_of, _) =
      find-insert ◌==◌ IsWord socket (length s.writers) socket tracks.data_of word word in
    let writer = advance (whole buf size) (some t) in
    let writers = s.writers ++ (writer ∷ []) in
    let wire = s.wire ++ ((socket, bytes) ∷ []) in
    let is_ready = advance-IsReady (whole buf size) 0 size t refl refl (omega arith) in
    let served : Served (with_writers s w m writers wire) (added ◌==◌ IsWord socket h.writing)
        (inserted ◌==◌ IsWord socket (length s.writers) h.entries) =
      record {
        tracks = record { sockets = set_of; data_of = map_of };
        known = λ j word_j there.
            lookup-inserted_there j socket (length s.writers) h.entries (
              known_or_new j word_j
                (sym (among-added socket j tracks.sockets word word_j) ∙ there));
        ready = λ j at word_j e.
            elim (lookup-inserted_cases j socket (length s.writers) at h.entries e) [
              | inl old ↦
                  let (x, f, r) = h.served.ready j at word_j old in
                  (
                    x,
                    get_elem?-append_left s.writers (writer ∷ []) at (get_elem?-lt s.writers at f)
                        ∙ f,
                    r,
                  )
              | inr new ↦ (
                writer,
                ap (get_elem? writers) new ∙ get_elem?-append_length s.writers writer [],
                is_ready,
              )
            ];
      } in
    (
      with_writers s w m writers wire,
      send-parts s (some t) socket size buf bytes w m e1 e2 e3,
      Steady-with_writers w m writers wire h served,
    )
  where
    known_or_new :
        (j : ℕ)
        → IsWord j
        → ((socket == j) || among j h.writing) ≡ true
        → (has ◌==◌ j h.entries || (j == socket)) ≡ true
    known_or_new j word_j there = elim (Bool-cases (among j h.writing)) [
      | inl old ↦
          let (at, e) = h.served.known j word_j old in ground (arith, has-lookup j at h.entries e)
      | inr new ↦ ground arith
    ]
