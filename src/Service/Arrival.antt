-- ===== src/Service/Arrival.antt =====
-- A round of the loop of tcpserver.c in which a client connects, with the callbacks of service.c.
use librestserver.Util.Num.{IsWord}
use librestserver.Util.Map.{Table}
use librestserver.Util.Map
use librestserver.Util.Map.Shape.{lookup, has}
use librestserver.Util.Set.Updates.{added}
use librestserver.Parser.State.{Parser}
use librestserver.Server.State.{Server, Events}
use librestserver.Server.Loop.{again, turn}
use librestserver.Server.Steady.{Steady}
use librestserver.Server.Steady.Turn.{IsKnock, turn-accepted}
use librestserver.Client.State.{Client}
use librestserver.Client.State as ClientState
use librestserver.Service.{Service, connection_at, on_client_accepted, callbacks}
use librestserver.Service.Lifecycle.{Knows, on_client_accepted-fresh}
use librestserver.Prelude.{
  ℕ, ◌≡◌, sym, ap, ◌∙◌, Bool, false, Option, none, some, List, [], ◌∷◌, ◌++◌, arith, ◌==◌,
  if◌then◌else◌, length, Result, ok, ◌>>=◌, >>=_assoc, >>=_cong,
}

module _ (taken : ℕ → Option ℕ) (fuel : ℕ) where
  on_client_accepted-any :
      (server other : Server) (s : Service) {t : Service} (socket : ℕ)
      → on_client_accepted taken fuel server s socket ≡ ok (server, t, false)
      → on_client_accepted taken fuel other s socket ≡ ok (other, t, false)
  unfolding on_client_accepted
  on_client_accepted-any server other s {t} socket e =
      let kept : Client × Parser → Table ℕ → Service =
        λ c clients. record s { clients = clients; connections = s.connections ++ (some c ∷ []) } in
      let moved : Server × Service × Bool → Result (Server × Service × Bool) =
        λ r. ok (other, r.1, r.2) in
      let insert : Result (Table ℕ) = Map.insert s.clients socket (length s.connections) in
      sym (
        >>=_assoc (ClientState.init socket)
          (λ c. insert >>= λ clients. ok (server, kept c clients, false)) moved
        ∙ >>=_cong (ClientState.init socket)
            (λ c. >>=_assoc insert (λ clients. ok (server, kept c clients, false)) moved))
      ∙ ap (λ r. r >>= moved) e

  -- A round in which select() finds only the listening socket ready and accept() returns a socket that
  -- the service does not know: the loop goes on, its invariant holds, its clients are those of before
  -- and the new one, and no socket is closed. The service has a fresh client for the new socket at a new
  -- address, and what it knows of any other socket stays.
  pub turn-fresh :
      (ev : Events) {server : Server} {cs fs : List ℕ} {s : Service} {entries : List (ℕ × ℕ)}
      (socket other : ℕ) (c : Client × Parser)
      → Steady server cs fs
      → IsKnock server ev cs socket
      → Knows s entries
      → IsWord other
      → has ◌==◌ socket entries ≡ false
      → ClientState.init socket ≡ ok c
      → (u : Server) × (t : Service) × (turn (callbacks taken fuel) ev server s ≡ ok (again u t))
        × Steady u (added ◌==◌ IsWord socket cs) []
        × (u.closed ≡ server.closed)
        × (connection_at t (length s.connections) ≡ ok c)
        × (Map.find t.clients other
            ≡ ok (
                if has ◌==◌ other entries
                then lookup ◌==◌ other entries
                else if other == socket
                then some (length s.connections)
                else none))
  unfolding callbacks
  turn-fresh ev {server} {s = s} socket other c h knock knows word absent start =
      let socket_word : IsWord socket = omega (arith, knock.socket) in
      let (t, e, there, found) =
        on_client_accepted-fresh taken fuel server socket other c knows socket_word word absent
          start in
      let (u, f, g, same) =
        turn-accepted (callbacks taken fuel) ev s t socket false h knock
          (λ r. on_client_accepted-any server r s socket e) in
      (u, t, f, g, same, there, found)
