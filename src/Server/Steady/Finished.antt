-- ===== src/Server/Steady/Finished.antt =====
-- The finished clients of a round.
use librestserver.Util.Vector.{Vector}
use librestserver.Util.Vector.Shape.{Holds, push_back-Holds}
use librestserver.Util.Set.Max.{AllBelow}
use librestserver.Server.State.{Server}
use librestserver.Server.Loop.{release_client}
use librestserver.Server.Steady.{IsSocket, Steady}
use librestserver.Prelude.{ℕ, ◌^◌, ◌<◌, ◌≡◌, refl, List, [], ◌∷◌, ◌++◌, ok}

pub AllBelow-append :
    (n : ℕ) (xs : List ℕ) (x : ℕ) → AllBelow n xs → x < n → AllBelow n (xs ++ (x ∷ []))
AllBelow-append n [] x h lt = (lt, tt)
AllBelow-append n (y ∷ xs) x h lt = (h.0, AllBelow-append n xs x h.1 lt)

-- The vector of the finished clients is a matter of its own.
pub Steady-finished :
    {s : Server} {cs fs gs : List ℕ} {v : Vector ℕ}
    → Steady s cs fs
    → Holds v gs
    → AllBelow (2 ^ 31) gs
    → Steady (record s { finished_clients = v }) cs gs
Steady-finished h holds below = record {
  clients_of = h.clients_of;
  compared = h.compared;
  sockets = h.sockets;
  finished_of = holds;
  finished_sockets = below;
  writing = h.writing;
  entries = h.entries;
  served = record {
    tracks = record { sockets = h.served.tracks.sockets; data_of = h.served.tracks.data_of };
    known = h.served.known;
    ready = h.served.ready;
  };
}

pub release_client-Steady :
    {s : Server} {cs fs : List ℕ} (j : ℕ)
    → Steady s cs fs
    → IsSocket j
    → (u : Server) × (release_client s j ≡ ok u)
      × Steady u cs (fs ++ (j ∷ []))
      × (u.closed ≡ s.closed)
unfolding release_client
release_client-Steady {s} {cs} {fs} j h socket =
    let (v, e, g) = push_back-Holds j h.finished_of in
    (
      record s { finished_clients = v },
      rw e refl,
      Steady-finished h g (AllBelow-append (2 ^ 31) fs j h.finished_sockets socket),
      refl,
    )
