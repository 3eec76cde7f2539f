-- ===== src/Service/Departure.antt =====
-- A round of the loop of tcpserver.c in which a response is through, with the callbacks of service.c.
use librestserver.Libc.{Block}
use librestserver.Util.Num.{IsWord}
use librestserver.Util.Map
use librestserver.Util.Map.Shape.{lookup}
use librestserver.Util.Map.Release.{IsReleasable}
use librestserver.Util.Set
use librestserver.Util.StringBuilder.{StringBuilder}
use librestserver.Parser.State.{Parser}
use librestserver.Server.State.{Server, Events}
use librestserver.Server.Loop.{again, turn}
use librestserver.Server.Send.Delivery.{Pending}
use librestserver.Server.Steady.{among, IsSocket, Steady}
use librestserver.Server.Steady.Leave.{IsWritable, turn-through}
use librestserver.Client.State.{Client}
use librestserver.Service.{Service, connection_at, callbacks}
use librestserver.Service.Lifecycle.{Knows, on_data_sent-releases}
use librestserver.Prelude.{
  ℕ, ◌≡◌, true, false, Option, none, some, List, [], ◌∷◌, ◌++◌, ◌==◌, if◌then◌else◌, set, ok,
}

module _ (taken : ℕ → Option ℕ) (fuel : ℕ) where
  -- A round in which select() finds only the socket of a client ready, for writing, when its response is
  -- sent as a whole, the client is no web socket, and its headers and parameters hold no null pointer: the
  -- loop goes on, its invariant holds, this socket is closed and no other one, and the clients are those
  -- of before without it. The service has released and forgotten the client, and what it knows of any
  -- other socket stays.
  pub turn-released :
      (ev : Events) {server : Server} {fs : List ℕ} (before after : List ℕ) {sent post : Block}
      {s : Service} {entries : List (ℕ × ℕ)} (socket other at : ℕ) (c : Client × Parser)
      (response : StringBuilder)
      → Steady server (before ++ (socket ∷ after)) fs
      → IsWritable ev socket
      → IsSocket server.serv_sock
      → Set.contains server.writing_sockets socket ≡ ok true
      → Pending server socket sent [] post
      → Knows s entries
      → IsWord socket
      → IsWord other
      → lookup ◌==◌ socket entries ≡ some at
      → connection_at s at ≡ ok c
      → (c.0).response_buffer ≡ some response
      → (c.0).upgrade_websocket ≡ false
      → IsReleasable (c.0).request.headers
      → IsReleasable (c.0).request.query_params
      → (u : Server) × (t : Service) × (ds : List ℕ) × (turn (callbacks taken fuel) ev server s
          ≡ ok (again u t))
        × Steady u ds (socket ∷ [])
        × (u.closed ≡ server.closed ++ (socket ∷ []))
        × (among other ds ≡ (
            if among other (socket ∷ []) then false else among other (before ++ (socket ∷ after))))
        × (t.connections ≡ set s.connections at none)
        × (Map.find t.clients other
            ≡ ok (if socket == other then none else lookup ◌==◌ other entries))
  unfolding callbacks
  turn-released ev before after {s = s} {entries} socket other at c response h found listening
        watched pending knows word word2 known here buffer plain headers params =
      let Left : Service → Type 0 = λ t.
        (t.connections ≡ set s.connections at none)
        × (Map.find t.clients other
            ≡ ok (if socket == other then none else lookup ◌==◌ other entries)) in
      let (u, t, ds, e, g, closed, kept, (cleared, left)) =
        turn-through (callbacks taken fuel) ev before after s socket Left h found listening watched
          pending
          (λ r.
            let (t, told, cleared, left) =
              on_data_sent-releases taken fuel r socket other at c response knows word word2 known
                here buffer plain headers params in
            (t, told, (cleared, left))) in
      (u, t, ds, e, g, closed, kept other word2, cleared, left)
