-- ===== src/Service/Lifecycle.antt =====
-- A client from its accept to the end of its response.
use librestserver.Util.Num.{IsWord}
use librestserver.Util.Vector.{element, client_release}
use librestserver.Util.Map
use librestserver.Util.Map.Shape.{lookup, has, find-Represents}
use librestserver.Util.Map.Erase.{erased_calls}
use librestserver.Util.Map.Release.{IsReleasable}
use librestserver.Http.Release.{release-request}
use librestserver.Util.Map.Laws.{IsMap, find-insert, find-erase}
use librestserver.Util.StringBuilder.{StringBuilder}
use librestserver.Parser.State.{Parser}
use librestserver.Client.State.{Client}
use librestserver.Client.State as ClientState
use librestserver.Server.State.{Server}
use librestserver.Service.{
  Service, connection_at, release_connection, release_called, on_client_accepted, on_data_sent,
}
use librestserver.Prelude.{
  ℕ, ◌+◌, ◌≡◌, refl, ap, ap₂, ◌∙◌, inl, inr, Bool, true, false, Option, none, some, List, [], ◌∷◌,
  ◌++◌, ◌==◌, if◌then◌else◌, Bool-cases, length, set, get_elem?-append_length, ok, ◌>>=◌,
}

-- The clients of a service: which address each socket has. Only the value destructor of the map is
-- set.
pub record Knows (s : Service) (entries : List (ℕ × ℕ)) : Type 0 where
  pub clients : IsMap ◌==◌ IsWord s.clients entries
  pub no_key_destructor : s.clients.key_destructor ≡ none
  pub releases : s.clients.value_destructor ≡ some client_release

-- An erasure calls the destructor of the client that stood under the socket.
erased_calls-lookup :
    (socket at i : ℕ) (entries : List (ℕ × ℕ))
    → lookup ◌==◌ socket entries ≡ some at
    → erased_calls ◌==◌ none (some client_release) socket i entries
      ≡ (client_release, element at) ∷ []
unfolding lookup erased_calls
erased_calls-lookup socket at i [] h = cc
erased_calls-lookup socket at i ((k, x) ∷ entries) h = elim (Bool-cases (socket == k)) [
  | inl hit ↦
      let same : ◌≡◌ {A = Option ℕ} (some x) (some at) = rw hit at h in
      rw hit (ap (λ a. (client_release, element a) ∷ []) (inner same))
  | inr miss ↦
      let later : lookup ◌==◌ socket entries ≡ some at = rw miss at h in
      rw miss (erased_calls-lookup socket at (i + 2) entries later)
]
  where
    inner : {x y : ℕ} → ◌≡◌ {A = Option ℕ} (some x) (some y) → x ≡ y
    inner e = cc

-- What an accept leaves.
abbrev accepted : Server → Service → Client × Parser → Map.Table ℕ → Server × Service × Bool
accepted server s c clients =
    (server, record s { clients = clients; connections = s.connections ++ (some c ∷ []) }, false)

module _ (taken : ℕ → Option ℕ) (fuel : ℕ) where
  -- A socket that the service does not know gets a fresh client at a new address; the clients of
  -- the other sockets stay.
  pub on_client_accepted-fresh :
      (server : Server) {s : Service} {entries : List (ℕ × ℕ)} (socket other : ℕ)
      (c : Client × Parser)
      → Knows s entries
      → IsWord socket
      → IsWord other
      → has ◌==◌ socket entries ≡ false
      → ClientState.init socket ≡ ok c
      → (t : Service) × (on_client_accepted taken fuel server s socket ≡ ok (server, t, false))
        × (connection_at t (length s.connections) ≡ ok c)
        × (Map.find t.clients other
            ≡ ok (
                if has ◌==◌ other entries
                then lookup ◌==◌ other entries
                else if other == socket
                then some (length s.connections)
                else none))
  unfolding on_client_accepted connection_at
  on_client_accepted-fresh server {s} {entries} socket other c h word word2 absent start =
      let (m, e, _, f) =
        find-insert ◌==◌ IsWord socket (length s.connections) other h.clients word word2 in
      let slot' = get_elem?-append_length s.connections (some c) [] in
      (
        record s { clients = m; connections = s.connections ++ (some c ∷ []) },
        ap
              (λ r. r >>= λ d. Map.insert s.clients socket (length s.connections) >>= λ m'.
                ok (accepted server s d m'))
              start
            ∙ ap (λ r. r >>= λ m'. ok (accepted server s c m')) e,
        rw (slot') refl,
        rw absent at f,
      )

  -- When the response of a client is sent, the client is no web socket and its headers and parameters
  -- hold no null pointer, it is released, and only it: its socket is unknown then, the clients of the other sockets stay.
  pub on_data_sent-releases :
      (server : Server) {s : Service} {entries : List (ℕ × ℕ)} (socket other at : ℕ)
      (c : Client × Parser) (response : StringBuilder)
      → Knows s entries
      → IsWord socket
      → IsWord other
      → lookup ◌==◌ socket entries ≡ some at
      → connection_at s at ≡ ok c
      → (c.0).response_buffer ≡ some response
      → (c.0).upgrade_websocket ≡ false
      → IsReleasable (c.0).request.headers
      → IsReleasable (c.0).request.query_params
      → (t : Service) × (on_data_sent taken fuel server s socket ≡ ok (server, t, true))
        × (t.connections ≡ set s.connections at none)
        × (Map.find t.clients other
            ≡ ok (if socket == other then none else lookup ◌==◌ other entries))
  unfolding on_data_sent release_called release_connection
  on_data_sent-releases server {s} {entries} socket other at c response h word word2 known here
        buffer plain headers params =
      let found : Map.find s.clients socket ≡ ok (some at) =
        find-Represents ◌==◌ IsWord socket h.clients.represents word ∙ ap ok known in
      let (m, e, _, f) = find-erase ◌==◌ IsWord socket other h.clients word word2 in
      let calls : erased_calls ◌==◌ s.clients.key_destructor s.clients.value_destructor socket 0
            entries
          ≡ (client_release, element at) ∷ [] =
        ap₂ (λ kd vd. erased_calls ◌==◌ kd vd socket 0 entries) h.no_key_destructor h.releases
        ∙ erased_calls-lookup socket at 0 entries known in
      let freed : ClientState.release c.0 ≡ ok tt =
        unfold ClientState.release in release-request (c.0).request headers params in
      (
        record s { clients = m; connections = set s.connections at none },
        rw (found) (
            rw (here) (rw (buffer) (rw (plain) (rw (e) (rw (calls) (rw (here) (rw freed refl))))))),
        refl,
        f,
      )
