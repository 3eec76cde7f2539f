-- ===== src/Service/Queries.antt =====
-- Requests whose url has a query.
use librestserver.Libc.{Block}
use librestserver.Libc.Bytes.{Lacks}
use librestserver.Libc.Strings.{IsText}
use librestserver.Util.Map
use librestserver.Parser.State.{Parser, Method}
use librestserver.Parser.Execute.Headers.{Field, AllFields, length_after}
use librestserver.Parser.Execute.Request.{IsLine}
use librestserver.Server.State.{Server}
use librestserver.Client.State.{Client}
use librestserver.Client.State as ClientState
use librestserver.Service.{Service}
use librestserver.Prelude.{ℕ, ◌^◌, ◌<◌, ◌≡◌, List, ◌∷◌, ◌++◌, length}

-- What a request with a query has to fulfil, whatever its query is.
pub record HasQuery (m : Method) (path query : Block) (major minor : ℕ) (fs : List Field)
    (bytes : Block) : Type 0 where
  pub is_line : IsLine m (path ++ (b'?' ∷ query)) major minor
  pub no_mark : Lacks b'?' path
  pub path_text : IsText path
  pub fields : AllFields fs
  pub announced : length_after 0 fs ≡ length bytes
  pub small : length bytes < 2 ^ 31
