-- ===== src/Service/Whole.antt =====
-- A whole exchange with a client: its request, the answer, the rounds that send the response, and
-- the release of the client.
use librestserver.Libc.{Block}
use librestserver.Util.Num.{CString, IsWord}
use librestserver.Util.Keys.{IsKey, same_string}
use librestserver.Util.Map.{Table}
use librestserver.Util.Map
use librestserver.Util.Map.Shape.{lookup, has, find-Represents}
use librestserver.Util.Map.Laws.{IsMap}
use librestserver.Parser.State.{Parser, Method, finished}
use librestserver.Parser.Execute.Headers.{Field}
use librestserver.Parser.Execute.Steps.{line_of}
use librestserver.Parser.Execute.Request.{request_text}
use librestserver.Server.State.{Server, Events}
use librestserver.Server.Send.{handle_client_write}
use librestserver.Server.Send.Delivery.{
  Pending, sent_to, handle_client_write-done, writes, Takes, writes-Pending,
}
use librestserver.Server.Send.Start.{Tracks}
use librestserver.Client.State.{Client}
use librestserver.Client.State as ClientState
use librestserver.Client.Collect.Message.{collected}
use librestserver.Client.Answer.Complete.{asking}
use librestserver.Client.Answer.Targets.{Target, path_of, good_of, pairs_of}
use librestserver.Client.Answer.Strings.{collected-IsReleasable, pairs_of-IsReleasable}
use librestserver.Util.Map.Release.{IsReleasable}
use librestserver.Client.Answer.Routing.{first_that_serves}
use librestserver.Client.Answer.Reply.{answer_to, IsSite, IsRendered, answering-Pending}
use librestserver.Service.{Service, connection_at, on_data_received, callbacks}
use librestserver.Util.StringBuilder.Laws.{Spells}
use librestserver.Service.Lifecycle.{Knows, on_data_sent-releases}
use librestserver.Service.Accepted.{accepted-IsNew}
use librestserver.Service.Exchange.{IsAsked, on_data_received-routed}
use librestserver.Service.Requests.{rounds_for}
use librestserver.Prelude.{
  subst, ℕ, ◌-◌, ◌≤◌, ◌≡◌, refl, sym, ap, ◌∙◌, inl, inr, true, false, Option, none, some, List, [],
  ◌∷◌, ◌++◌, append_assoc, ◌==◌, if◌then◌else◌, Option-cases, length, get_elem?, set, take, drop,
  length-drop, out_of_bounds, Result, ok, err, ◌>>=◌, take-append-drop, get_elem?-set,
}

-- A client that is replaced at its address is found there.
pub connection_at-set :
    (s : Service) (at : ℕ) (c d : Client × Parser)
    → connection_at s at ≡ ok c
    → connection_at (record s { connections = set s.connections at (some d) }) at ≡ ok d
unfolding connection_at
connection_at-set s at c d e = elim (Option-cases (get_elem? s.connections at)) [
  | inl absent ↦ absurd (failed (rw absent at e))
  | inr (old, there) ↦ rw (get_elem?-set s.connections at (some d) there) refl
]
  where
    failed : ◌≡◌ {A = Result (Client × Parser)} (err out_of_bounds) (ok c) → ⊥
    failed e = cc

Knows-set :
    {s : Service} {entries : List (ℕ × ℕ)} (at : ℕ) (d : Client × Parser)
    → Knows s entries
    → Knows (record s { connections = set s.connections at (some d) }) entries
Knows-set at d h = record {
  clients = h.clients;
  no_key_destructor = h.no_key_destructor;
  releases = h.releases;
}

-- Every request of this text is answered with the response `text`.
abbrev pub AnswersAll :
    (s : Service)
    → IsSite s.site
    → Client
    → Method
    → Block
    → Target
    → ℕ
    → ℕ
    → List Field
    → Block
    → Block
    → Type 0
AnswersAll s h c m url target major minor fs bytes text =
    (headers params : Table CString)
    → IsMap same_string IsKey headers (collected fs [])
    → IsMap same_string IsKey params (pairs_of target)
    → IsRendered
        (answer_to s.site
          (asking c m url (path_of target) (major - b'0') (minor - b'0') headers params
            bytes).request
          (good_of target)
          (first_that_serves h.named h.resources
            (asking c m url (path_of target) (major - b'0') (minor - b'0') headers params
              bytes).request
            (path_of target)))
        text

module _ (taken : ℕ → Option ℕ) (fuel : ℕ) where
  -- The call on the packet.
  pub received :
      (server : Server) {s : Service} (sock at : ℕ) (start : Client × Parser) (m : Method) (u : ℕ)
      (url : Block) (target : Target) (major minor : ℕ) (fs : List Field) (bytes text : Block)
      (t : ℕ) {entries : List (ℕ × ℕ)} {writing : List ℕ} {waiting : List (ℕ × ℕ)}
      → Knows s entries
      → IsWord sock
      → lookup ◌==◌ sock entries ≡ some at
      → connection_at s at ≡ ok start
      → ClientState.init sock ≡ ok start
      → IsAsked m (u ∷ url) target major minor fs bytes
      → (site : IsSite s.site)
      → AnswersAll s site start.0 m (u ∷ url) target major minor fs bytes text
      → Tracks server writing waiting
      → has ◌==◌ sock waiting ≡ false
      → taken sock ≡ some t
      → t ≤ length text
      → (server1 : Server) × (c : Client × Parser) × (on_data_received taken
            (rounds_for fs bytes fuel)
            server
            s
            sock
            (request_text (line_of m (u ∷ url) major minor) fs bytes)
          ≡ ok (server1, record s { connections = set s.connections at (some c) }, false))
        × ((c.0).upgrade_websocket ≡ false)
        × ((b : _) × ((c.0).response_buffer ≡ some b))
        × IsReleasable (c.0).request.headers
        × IsReleasable (c.0).request.query_params
        × ((c.1).state ≡ finished)
        × Spells (c.1).buf bytes
        × Pending server1 sock (take t text) (drop t text) (0 ∷ [])
        × (sent_to sock server1.wire ≡ sent_to sock server.wire ++ take t text)
  received server {s} sock at start m u url target major minor fs bytes text t {waiting = waiting} h
        word known here accepted asked site answers tracks idle takes le =
      let found : Map.find s.clients sock ≡ ok (some at) =
        find-Represents ◌==◌ IsWord sock h.clients.represents word ∙ ap ok known in
      let new = accepted-IsNew sock start accepted in
      let (p, headers, params, routed, g, k, ended, left) =
        on_data_received-routed taken fuel server s sock at start m u url target major minor fs
          bytes found here accepted asked in
      let c =
        asking start.0 m (u ∷ url) (path_of target) (major - b'0') (minor - b'0') headers params
          bytes in
      let same : c.socket ≡ sock = new.same_socket in
      let (server1, buffer, sent, pending, wire) =
        answering-Pending s.site taken (record { client = c; server = server }) (path_of target)
          (good_of target) text t site refl asked.path_text (answers headers params g k) tracks
          (subst IsWord (sym same) word) (ap (λ j. has ◌==◌ j waiting) same ∙ idle)
          (ap taken same ∙ takes) le in
      (
        server1,
        (record c { response_buffer = some buffer }, p),
        routed ∙ rw sent refl,
        new.no_websocket,
        (buffer, refl),
        collected-IsReleasable fs g,
        pairs_of-IsReleasable target k,
        ended,
        left,
        subst (λ j. Pending server1 j (take t text) (drop t text) (0 ∷ [])) same pending,
        subst (λ j. sent_to j server1.wire ≡ sent_to j server.wire ++ take t text) same wire,
      )

  -- The exchange: a client that was just accepted sends a request in one packet. The lines of its
  -- header are a name, a colon, blanks and a value, where name and value are not empty, start with
  -- no blank, have no colon and no carriage return, and the name has no zero byte; its url has no
  -- blank, and is a path, a path with a query of one or two pairs, or a path with a query whose
  -- pair has a second '='. Its socket takes the response in the rounds that follow, and one more
  -- round finds it writable. The request is answered by the handler of the first resource for it,
  -- by the generic handler where there is none, and by the refusal of a bad request where a pair
  -- has a second '='; the response has a status message and no null pointer in its headers. Then
  -- every step succeeds, the kernel got the text of the response, whole and in order, and the
  -- client is released, and no other one.
  pub exchange :
      (server : Server) {s : Service} (sock other at : ℕ) (start : Client × Parser) (m : Method)
      (u : ℕ) (url : Block) (target : Target) (major minor : ℕ) (fs : List Field)
      (bytes text : Block) (t : ℕ) (evs : List Events) (ev : Events) {entries : List (ℕ × ℕ)}
      {writing : List ℕ} {waiting : List (ℕ × ℕ)}
      → Knows s entries
      → IsWord sock
      → IsWord other
      → lookup ◌==◌ sock entries ≡ some at
      → connection_at s at ≡ ok start
      → ClientState.init sock ≡ ok start
      → IsAsked m (u ∷ url) target major minor fs bytes
      → (site : IsSite s.site)
      → AnswersAll s site start.0 m (u ∷ url) target major minor fs bytes text
      → Tracks server writing waiting
      → has ◌==◌ sock waiting ≡ false
      → taken sock ≡ some t
      → t ≤ length text
      → Takes (callbacks taken (rounds_for fs bytes fuel)) evs sock (length text - t)
      → (server2 : Server) × (s2 : Service) × ((on_data_received taken
              (rounds_for fs bytes fuel)
              server
              s
              sock
              (request_text (line_of m (u ∷ url) major minor) fs bytes)
            >>= λ r. writes (callbacks taken (rounds_for fs bytes fuel)) evs r.0 r.1 sock >>= λ w.
                handle_client_write (callbacks taken (rounds_for fs bytes fuel)) ev w.0 w.1 sock)
          ≡ ok (server2, s2, true))
        × (sent_to sock server2.wire ≡ sent_to sock server.wire ++ text)
        × (Map.find s2.clients other
            ≡ ok (if sock == other then none else lookup ◌==◌ other entries))
  unfolding callbacks
  exchange server {s} sock other at start m u url target major minor fs bytes text t evs ev
        {entries} h word word2 known here accepted asked site answers tracks idle takes le rest =
      let cb = callbacks taken (rounds_for fs bytes fuel) in
      let (server1, c, e1, plain, (b, buffered), held, given, _, _, pending, wire1) =
        received server sock at start m u url target major minor fs bytes text t h word known here
          accepted asked site answers tracks idle takes le in
      let s1 : Service = record s { connections = set s.connections at (some c) } in
      let (server2, e2, done, wire2) =
        writes-Pending cb evs s1 sock pending
          (subst (λ n. Takes cb evs sock n) (sym (length-drop t text)) rest) in
      let (s2, e3, _, found) =
        on_data_sent-releases taken (rounds_for fs bytes fuel) server2 sock other at c b
          (Knows-set at c h) word word2 known (connection_at-set s at start c here) buffered plain
          held given in
      (
        server2,
        s2,
        ap
              (λ r. r >>= λ q.
                writes cb evs q.0 q.1 sock >>= λ w. handle_client_write cb ev w.0 w.1 sock)
              e1
            ∙ ap (λ r. r >>= λ w. handle_client_write cb ev w.0 w.1 sock) e2
            ∙ handle_client_write-done cb ev s1 sock done
            ∙ e3,
        wire2
            ∙ ap (λ l. l ++ drop t text) wire1
            ∙ append_assoc (sent_to sock server.wire) (take t text) (drop t text)
            ∙ ap (λ l. sent_to sock server.wire ++ l) (take-append-drop t text),
        found,
      )
