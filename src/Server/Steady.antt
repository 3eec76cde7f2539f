-- ===== src/Server/Steady.antt =====
-- What holds of RST_SelectTcpServer between any two operations of its loop, and what the operations
-- of tcpserver.c on its writers make of it.
pub mod Writers
pub mod Send
pub mod Write
pub mod Finished
pub mod Clients
pub mod Release
pub mod Rounds
pub mod Serve
pub mod Leave
pub mod Turn
use librestserver.Libc.{Block}
use librestserver.Util.Num.{int_comparator, IsWord}
use librestserver.Util.Vector.Shape.{Holds}
use librestserver.Util.Map.Shape.{lookup}
use librestserver.Util.Map.Laws.{IsMap}
use librestserver.Util.Set.Laws.{IsSetOf, member}
use librestserver.Util.Set.Max.{AllBelow}
use librestserver.Server.State.{WriterData, Server, Events, Callbacks}
use librestserver.Server.Send.Start.{Tracks}
use librestserver.Prelude.{
  subst, fun_ext, ℕ, zero, suc, ◌+◌, ◌-◌, ◌*◌, ◌/◌, ◌%◌, ◌^◌, ◌≤◌, ◌<◌, min, ◌≡◌, refl, sym, ap,
  ap₂, ◌∙◌, ◌≢◌, ◌↔◌, ◌⊎◌, inl, inr, Bool, true, false, ◌&&◌, ◌||◌, not, Option, none, some, List,
  [], ◌∷◌, ◌++◌, map, append_assoc, append-nil, map-append, arith, ltb, leb, ◌==◌, if◌then◌else◌,
  ltb→lt, lt→ltb, leb→le, ==_iff, tests, Bool-cases, Option-cases, length, get_elem?, set, take,
  drop, replicate, length-append, length-set, length-take, length-drop, length-replicate,
  length-map, take-length-append, drop-length-append, take-append_le, drop-append_le,
  get_elem?-append_length, get_elem?-append_left, set-append_length, take_all, drop_all, split_at,
  length-take_le, get_elem?-lt, Fault, out_of_bounds, uninitialized, null_pointer, assertion,
  exited, no_progress, Result, ok, err, ◌>>=◌, ◌>>◌, guard, from_option, ℤ, pos, negsuc, sub_ℕ,
  is_zero, is_positive, ltb_ℤ, to_int, to_unsigned, is_zero-sub_ℕ, add_ℕ, take_ℕ, take-append-drop,
  get_elem?-set, >>=_assoc, >>=_cong,
}

-- A socket is one of the list.
abbrev pub among : ℕ → List ℕ → Bool
among = member ◌==◌ IsWord

-- A descriptor: an int that is not negative.
abbrev pub IsSocket : ℕ → Type 0
IsSocket j = j < 2 ^ 31

-- A writer with something left stands inside its block, and so does what is left.
abbrev pub IsReady : WriterData → Type 0
IsReady w =
    is_positive w.len ≡ true
    → (k n : ℕ) × (w.off ≡ pos k) × (w.len ≡ pos n) × (k + n ≤ length w.block)

-- The entry of a socket that is written to names a writer, and every writer that an entry names is
-- ready.
pub record Served (s : Server) (writing : List ℕ) (entries : List (ℕ × ℕ)) : Type 0 where
  pub tracks : Tracks s writing entries
  pub known :
      (j : ℕ) → IsWord j → among j writing ≡ true → (at : ℕ) × (lookup ◌==◌ j entries ≡ some at)
  pub ready :
      (j at : ℕ)
      → IsWord j
      → lookup ◌==◌ j entries ≡ some at
      → (w : WriterData) × (get_elem? s.writers at ≡ some w) × IsReady w

-- The clients of the server are the sockets `cs`, the finished ones the sockets `fs`.
pub record Steady (s : Server) (cs fs : List ℕ) : Type 0 where
  pub clients_of : IsSetOf ◌==◌ IsWord s.clients cs
  pub compared : s.clients.comparator ≡ int_comparator
  pub sockets : AllBelow (2 ^ 31) cs
  pub finished_of : Holds s.finished_clients fs
  pub finished_sockets : AllBelow (2 ^ 31) fs
  pub writing : List ℕ
  pub entries : List (ℕ × ℕ)
  pub served : Served s writing entries
