-- ===== src/Server/Send/Delivery.antt =====
-- Responses on their way: from the call of RST_selecttcpserver_send over the rounds that find the
-- socket writable to the callback that says that all was sent.
use librestserver.Libc.{Block}
use librestserver.Util.Map
use librestserver.Server.State.{WriterData, Server, Events, Callbacks}
use librestserver.Server.Send.{kernel_send, advance, write_more, handle_client_write}
use librestserver.Server.Send.Progress.{Sending, kernel_send-Sending, advance-Sending}
use librestserver.Prelude.{
  subst, ℕ, ◌-◌, ◌≤◌, ◌<◌, ◌≡◌, refl, sym, ap, ◌∙◌, true, false, some, List, [], ◌∷◌, ◌++◌,
  append_assoc, append-nil, arith, ◌==◌, if◌then◌else◌, lt→ltb, ==_iff, length, get_elem?, set,
  take, drop, length-drop, Result, ok, ◌>>=◌, is_positive, take-append-drop, get_elem?-set,
}

-- The bytes that the kernel took for a socket, in order.
abbrev pub sent_to : ℕ → List (ℕ × Block) → Block
sent_to socket [] = []
sent_to socket ((s, b) ∷ wire) = (if s == socket then b else []) ++ sent_to socket wire

sent_to-append :
    (socket : ℕ) (xs ys : List (ℕ × Block))
    → sent_to socket (xs ++ ys) ≡ sent_to socket xs ++ sent_to socket ys
sent_to-append socket [] ys = refl
sent_to-append socket ((s, b) ∷ xs) ys =
    rw (sent_to-append socket xs ys)
      (sym (append_assoc (if s == socket then b else []) (sent_to socket xs) (sent_to socket ys)))

pub sent_to-more :
    (socket : ℕ) (xs : List (ℕ × Block)) (b : Block)
    → sent_to socket (xs ++ ((socket, b) ∷ [])) ≡ sent_to socket xs ++ b
sent_to-more socket xs b =
    let same : (socket == socket) ≡ true = (==_iff socket socket).1 refl in
    sent_to-append socket xs ((socket, b) ∷ [])
    ∙ ap (λ r. sent_to socket xs ++ r) (rw same (append-nil b))

-- The writer that the map names for the socket.
pub record Pending (s : Server) (socket : ℕ) (sent left post : Block) : Type 0 where
  pub at : ℕ
  pub writer : WriterData
  pub found : Map.find s.writers_data socket ≡ ok (some at)
  pub stored : get_elem? s.writers at ≡ some writer
  pub progress : Sending writer sent left post

module _ {O : Type 0} (cb : Callbacks O) where
  pub handle_client_write-found :
      (ev : Events) (s : Server) (o : O) (socket at : ℕ) (w : WriterData)
      → Map.find s.writers_data socket ≡ ok (some at)
      → get_elem? s.writers at ≡ some w
      → handle_client_write cb ev s o socket ≡ (
          if is_positive w.len
          then (write_more cb ev s socket at w >>= λ t. ok (t, o, false))
          else cb.on_data_sent s o socket)
  unfolding handle_client_write
  handle_client_write-found ev s o socket at w found stored = rw (found) (rw (stored) refl)

  pub write_more-sent :
      (ev : Events) (s : Server) (socket at : ℕ) (w : WriterData) (t : ℕ) (bytes : Block)
      → ev.taken socket ≡ some t
      → kernel_send w (some t) ≡ ok bytes
      → write_more cb ev s socket at w
        ≡ ok (record s {
          writers = set s.writers at (advance w (some t));
          wire = s.wire ++ ((socket, bytes) ∷ []);
        })
  unfolding write_more
  write_more-sent ev s socket at w t bytes e h = rw e (rw h refl)

  -- A writable socket with bytes left gets the next `t` of them.
  pub handle_client_write-Pending :
      (ev : Events) {s : Server} (o : O) (socket t : ℕ) {sent left post : Block}
      → Pending s socket sent left post
      → 0 < length left
      → ev.taken socket ≡ some t
      → t ≤ length left
      → (s1 : Server) × (handle_client_write cb ev s o socket ≡ ok (s1, o, false))
        × Pending s1 socket (sent ++ take t left) (drop t left) post
        × (sent_to socket s1.wire ≡ sent_to socket s.wire ++ take t left)
  handle_client_write-Pending ev {s} o socket t {sent} {left} {post} h some_left e le =
      let s1 : Server = record s {
        writers = set s.writers h.at (advance h.writer (some t));
        wire = s.wire ++ ((socket, take t left) ∷ []);
      } in
      let more : is_positive (h.writer.len) ≡ true =
        ap is_positive h.progress.remaining ∙ lt→ltb 0 (length left) some_left in
      (
        s1,
        handle_client_write-found ev s o socket h.at h.writer h.found h.stored
            ∙ rw more (
                rw
                  (write_more-sent ev s socket h.at h.writer t (take t left) e
                    (kernel_send-Sending t h.progress))
                  refl),
        record {
          at = h.at;
          writer = advance h.writer (some t);
          found = h.found;
          stored = get_elem?-set s.writers h.at (advance h.writer (some t)) h.stored;
          progress = advance-Sending t h.progress le;
        },
        sent_to-more socket s.wire (take t left),
      )

  -- When nothing is left, the callback is told so.
  pub handle_client_write-done :
      (ev : Events) {s : Server} (o : O) (socket : ℕ) {sent post : Block}
      → Pending s socket sent [] post
      → handle_client_write cb ev s o socket ≡ cb.on_data_sent s o socket
  handle_client_write-done ev {s} o socket h =
      let no_more : is_positive (h.writer.len) ≡ false = ap is_positive h.progress.remaining in
      handle_client_write-found ev s o socket h.at h.writer h.found h.stored ∙ rw no_more refl

  -- One round after the other finds the socket writable.
  unfoldable pub writes : List Events → Server → O → ℕ → Result (Server × O)
  writes [] s o socket = ok (s, o)
  writes (ev ∷ evs) s o socket =
      handle_client_write cb ev s o socket >>= λ r. writes evs r.0 r.1 socket

  -- The bytes that the kernel takes in these rounds add up to `n`, and each round finds some left.
  abbrev pub Takes : List Events → ℕ → ℕ → Type 0
  Takes [] socket n = n ≡ 0
  Takes (ev ∷ evs) socket n =
      (t : ℕ) × (ev.taken socket ≡ some t) × (t ≤ n) × (0 < n) × Takes evs socket (n - t)

  pub writes-Pending :
      (evs : List Events) {s : Server} (o : O) (socket : ℕ) {sent left post : Block}
      → Pending s socket sent left post
      → Takes evs socket (length left)
      → (s1 : Server) × (writes evs s o socket ≡ ok (s1, o))
        × Pending s1 socket (sent ++ left) [] post
        × (sent_to socket s1.wire ≡ sent_to socket s.wire ++ left)
  unfolding writes
  writes-Pending [] {s} o socket {sent} {left = []} {post} h e = (
    s,
    refl,
    subst (λ l. Pending s socket l [] post) (sym (append-nil sent)) h,
    sym (append-nil (sent_to socket s.wire)),
  )
  writes-Pending [] {s} o socket {sent} {left = c ∷ left} {post} h e = absurd (omega arith)
  writes-Pending (ev ∷ evs) {s} o socket {sent} {left} {post} h (t, e, le, some_left, more) =
      let (s1, r, p, w) = handle_client_write-Pending ev o socket t h some_left e le in
      let rest : Takes evs socket (length (drop t left)) =
        subst (λ n. Takes evs socket n) (sym (length-drop t left)) more in
      let (s2, r2, p2, w2) = writes-Pending evs o socket p rest in
      let whole_left : (a : Block) → (a ++ take t left) ++ drop t left ≡ a ++ left = λ a.
        append_assoc a (take t left) (drop t left) ∙ ap (λ l. a ++ l) (take-append-drop t left) in
      (
        s2,
        rw r r2,
        subst (λ l. Pending s2 socket l [] post) (whole_left sent) p2,
        w2 ∙ ap (λ l. l ++ drop t left) w ∙ whole_left (sent_to socket s.wire),
      )
