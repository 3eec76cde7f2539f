-- ===== src/Server/Send/Start.antt =====
-- What a call of RST_selecttcpserver_send leaves for the rounds of the loop.
use librestserver.Libc.{Block}
use librestserver.Libc.Bytes.{read_bytes-append}
use librestserver.Util.Num.{IsWord}
use librestserver.Util.Map
use librestserver.Util.Map.Laws.{IsMap, find-insert}
use librestserver.Util.Map.Shape.{lookup, has, find-Represents}
use librestserver.Util.Set
use librestserver.Util.Set.Laws.{IsSetOf}
use librestserver.Util.Set.Updates.{contains-insert}
use librestserver.Server.State.{Server, Events, Callbacks}
use librestserver.Server.Send.{kernel_send, advance, whole, send, write_more, handle_client_write}
use librestserver.Server.Send.Progress.{whole-Sending, kernel_send-Sending, advance-Sending}
use librestserver.Server.Send.Delivery.{
  Pending, sent_to, sent_to-more, handle_client_write-found, writes, Takes, writes-Pending,
}
use librestserver.Prelude.{
  subst, ℕ, ◌+◌, ◌-◌, ◌≤◌, ◌≡◌, refl, sym, ap, ◌∙◌, true, false, Option, none, some, List, [], ◌∷◌,
  ◌++◌, append_assoc, arith, ◌==◌, ==_iff, length, take, drop, length-drop, get_elem?-append_length,
  get_elem?-append_left, get_elem?-lt, out_of_bounds, ok, err, ◌>>=◌, pos, is_positive,
  take-append-drop,
}

-- The sets of a server: the sockets that are written to, and the indices of their writers.
pub record Tracks (s : Server) (writing : List ℕ) (entries : List (ℕ × ℕ)) : Type 0 where
  pub sockets : IsSetOf ◌==◌ IsWord s.writing_sockets writing
  pub data_of : IsMap ◌==◌ IsWord s.writers_data entries

-- The result of a call, from the parts that succeed.
pub send-parts :
    (s : Server) (taken : Option ℕ) (socket size : ℕ) (buf bytes : Block) (w : Set.Group ℕ)
    (m : Map.Table ℕ)
    → Set.insert s.writing_sockets socket ≡ ok w
    → kernel_send (whole buf size) taken ≡ ok bytes
    → Map.insert s.writers_data socket (length s.writers) ≡ ok m
    → send s taken socket buf size
      ≡ ok (record s {
        writing_sockets = w;
        writers_data = m;
        writers = s.writers ++ (advance (whole buf size) taken ∷ []);
        wire = s.wire ++ ((socket, bytes) ∷ []);
      })
unfolding send
send-parts s taken socket size buf bytes w m e1 e2 e3 = rw e1 (rw e2 (rw e3 refl))

send_nothing :
    (response post : Block) → kernel_send (whole (response ++ post) (length response)) none ≡ ok []
unfolding kernel_send
send_nothing response post = rw (read_bytes-append [] response post) refl

longer : (n : ℕ) → is_positive (pos (n + 1)) ≡ true
longer n = ground arith

-- A response for a socket that no response waits for: the kernel takes its first `t` bytes, and
-- what is left waits for the loop.
pub send-Pending :
    {s : Server} {writing : List ℕ} {entries : List (ℕ × ℕ)} (socket t : ℕ) (response post : Block)
    → Tracks s writing entries
    → IsWord socket
    → has ◌==◌ socket entries ≡ false
    → t ≤ length response
    → (s1 : Server) × (send s (some t) socket (response ++ post) (length response) ≡ ok s1)
      × Pending s1 socket (take t response) (drop t response) post
      × (sent_to socket s1.wire ≡ sent_to socket s.wire ++ take t response)
send-Pending {s} {writing} {entries} socket t response post h word absent le =
    let start = whole-Sending response post in
    let (w, e1, _, _) = contains-insert ◌==◌ IsWord socket socket h.sockets word word in
    let (m, e3, _, f) =
      find-insert ◌==◌ IsWord socket (length s.writers) socket h.data_of word word in
    let same : (socket == socket) ≡ true = (==_iff socket socket).1 refl in
    let found : Map.find m socket ≡ ok (some (length s.writers)) = rw (absent, same) at f in
    let writer = advance (whole (response ++ post) (length response)) (some t) in
    (
      record s {
        writing_sockets = w;
        writers_data = m;
        writers = s.writers ++ (writer ∷ []);
        wire = s.wire ++ ((socket, take t response) ∷ []);
      },
      send-parts s (some t) socket (length response) (response ++ post) (take t response) w m e1
          (kernel_send-Sending t start) e3,
      record {
        at = length s.writers;
        writer = writer;
        found = found;
        stored = get_elem?-append_length s.writers writer [];
        progress = advance-Sending t start le;
      },
      sent_to-more socket s.wire (take t response),
    )

-- A second response for a socket while the first one waits: its first `t` bytes go out at once, in
-- front of what is left of the first one, and nothing of its rest is kept.
pub send-second :
    {s : Server} {writing : List ℕ} {entries : List (ℕ × ℕ)} (socket t : ℕ)
    (response post sent left behind : Block)
    → Tracks s writing entries
    → IsWord socket
    → has ◌==◌ socket entries ≡ true
    → Pending s socket sent left behind
    → (s1 : Server) × (send s (some t) socket (response ++ post) (length response) ≡ ok s1)
      × Pending s1 socket sent left behind
      × (sent_to socket s1.wire ≡ sent_to socket s.wire ++ take t response)
send-second {s} {writing} {entries} socket t response post sent left behind h word old p =
    let start = whole-Sending response post in
    let (w, e1, _, _) = contains-insert ◌==◌ IsWord socket socket h.sockets word word in
    let (m, e3, _, f) =
      find-insert ◌==◌ IsWord socket (length s.writers) socket h.data_of word word in
    let kept : Map.find m socket ≡ ok (lookup ◌==◌ socket entries) = rw old at f in
    let found : Map.find m socket ≡ ok (some p.at) =
      kept ∙ sym (find-Represents ◌==◌ IsWord socket h.data_of.represents word) ∙ p.found in
    let writer = advance (whole (response ++ post) (length response)) (some t) in
    (
      record s {
        writing_sockets = w;
        writers_data = m;
        writers = s.writers ++ (writer ∷ []);
        wire = s.wire ++ ((socket, take t response) ∷ []);
      },
      send-parts s (some t) socket (length response) (response ++ post) (take t response) w m e1
          (kernel_send-Sending t start) e3,
      record {
        at = p.at;
        writer = p.writer;
        found = found;
        stored =
            get_elem?-append_left s.writers (writer ∷ []) p.at
              (get_elem?-lt s.writers p.at p.stored)
            ∙ p.stored;
        progress = p.progress;
      },
      sent_to-more socket s.wire (take t response),
    )

module _ {O : Type 0} (cb : Callbacks O) where
  -- A response for a socket that no response waits for: after the call and the rounds that find the
  -- socket writable, the kernel has taken the whole response, byte for byte and in order, and
  -- nothing is left.
  pub send-writes :
      {s : Server} {writing : List ℕ} {entries : List (ℕ × ℕ)} (evs : List Events) (o : O)
      (socket t : ℕ) (response post : Block)
      → Tracks s writing entries
      → IsWord socket
      → has ◌==◌ socket entries ≡ false
      → t ≤ length response
      → Takes cb evs socket (length response - t)
      → (s1 : Server) × ((send s (some t) socket (response ++ post) (length response) >>= λ r.
            writes cb evs r o socket)
          ≡ ok (s1, o))
        × Pending s1 socket response [] post
        × (sent_to socket s1.wire ≡ sent_to socket s.wire ++ response)
  send-writes {s} {writing} {entries} evs o socket t response post h word absent le takes =
      let (s1, e, p, w) = send-Pending socket t response post h word absent le in
      let rest : Takes cb evs socket (length (drop t response)) =
        subst (λ n. Takes cb evs socket n) (sym (length-drop t response)) takes in
      let (s2, r2, p2, w2) = writes-Pending cb evs o socket p rest in
      (
        s2,
        rw e r2,
        subst (λ l. Pending s2 socket l [] post) (take-append-drop t response) p2,
        w2
            ∙ ap (λ l. l ++ drop t response) w
            ∙ append_assoc (sent_to socket s.wire) (take t response) (drop t response)
            ∙ ap (λ l. sent_to socket s.wire ++ l) (take-append-drop t response),
      )

  -- If the first call of send() for a response fails, the next round that finds the socket writable
  -- hands the kernel a pointer in front of the response, whatever it would take.
  pub send-failed :
      {s : Server} {writing : List ℕ} {entries : List (ℕ × ℕ)} (ev : Events) (o : O) (socket : ℕ)
      (response post : Block)
      → Tracks s writing entries
      → IsWord socket
      → has ◌==◌ socket entries ≡ false
      → (send s none socket (response ++ post) (length response) >>= λ r.
          handle_client_write cb ev r o socket)
        ≡ err out_of_bounds
  unfolding write_more advance
  send-failed {s} {writing} {entries} ev o socket response post h word absent =
      let (w, e1, _, _) = contains-insert ◌==◌ IsWord socket socket h.sockets word word in
      let (m, e3, _, f) =
        find-insert ◌==◌ IsWord socket (length s.writers) socket h.data_of word word in
      let same : (socket == socket) ≡ true = (==_iff socket socket).1 refl in
      let found : Map.find m socket ≡ ok (some (length s.writers)) = rw (absent, same) at f in
      let writer = advance (whole (response ++ post) (length response)) none in
      let len_grown : is_positive (writer.len) ≡ true = longer (length response) in
      let s1 : Server = record s {
        writing_sockets = w;
        writers_data = m;
        writers = s.writers ++ (writer ∷ []);
        wire = s.wire ++ ((socket, []) ∷ []);
      } in
      let sent : send s none socket (response ++ post) (length response) ≡ ok s1 =
        send-parts s none socket (length response) (response ++ post) [] w m e1
          (send_nothing response post) e3 in
      rw sent (
        handle_client_write-found cb ev s1 o socket (length s.writers) writer found
          (get_elem?-append_length s.writers writer [])
        ∙ rw len_grown refl)
