-- ===== src/Service/Second.antt =====
-- A client that sends more before the response to its request is through.
use librestserver.Libc.{Block, read_byte}
use librestserver.Util.Num.{IsWord}
use librestserver.Util.Map.{Table}
use librestserver.Util.Map
use librestserver.Util.Map.Shape.{lookup, has, find-Represents}
use librestserver.Parser.State.{Parser, Method}
use librestserver.Parser.Execute.Headers.{Field}
use librestserver.Parser.Execute.Steps.{line_of}
use librestserver.Parser.Execute.Request.{request_text}
use librestserver.Parser.Execute.Stuck.{execute_finished}
use librestserver.Server.State.{Server}
use librestserver.Server.Send.Start.{Tracks}
use librestserver.Client.State.{Client, Session}
use librestserver.Client.State as ClientState
use librestserver.Client.Answer.{settings}
use librestserver.Client.Answer.Targets.{Target}
use librestserver.Client.Answer.Reply.{IsSite}
use librestserver.Service.{Service, connection_at, exit_byte, on_data_received}
use librestserver.Service.Lifecycle.{Knows}
use librestserver.Service.Exchange.{IsAsked}
use librestserver.Service.Requests.{rounds_for, leaving}
use librestserver.Service.Whole.{AnswersAll, received}
use librestserver.Service.Split.{IsSeen, fed_again}
use librestserver.Prelude.{
  ℕ, ◌≤◌, ◌≡◌, refl, ap, ◌∙◌, false, Option, some, List, ◌∷◌, ◌==◌, length, no_progress, ok, err,
  ◌>>=◌,
}

module _ (taken : ℕ → Option ℕ) (fuel : ℕ) where
  -- A client whose request was answered, and which is not released yet, sends another packet: the
  -- call for it never returns, on every amount of fuel. Only a packet that ends the program is
  -- excepted. The header of the request has lines of a name, a colon, blanks and a value, where
  -- name and value are not empty, start with no blank, have no colon and no carriage return, and
  -- the name has no zero byte; its url has no blank, and is a path, a path with a query of one or
  -- two pairs, or a path with a query whose pair has a second '='; and the response has a status
  -- message and no null pointer in its headers.
  pub on_data_received-second :
      (fuel2 : ℕ) (server : Server) {s : Service} (sock at : ℕ) (start : Client × Parser)
      (m : Method) (u : ℕ) (url : Block) (target : Target) (major minor : ℕ) (fs : List Field)
      (bytes text : Block) (t b : ℕ) (more : Block) {entries : List (ℕ × ℕ)} {writing : List ℕ}
      {waiting : List (ℕ × ℕ)}
      → Knows s entries
      → IsWord sock
      → lookup ◌==◌ sock entries ≡ some at
      → connection_at s at ≡ ok start
      → ClientState.init sock ≡ ok start
      → IsAsked m (u ∷ url) target major minor fs bytes
      → (site : IsSite s.site)
      → AnswersAll s site start.0 m (u ∷ url) target major minor fs bytes text
      → Tracks server writing waiting
      → has ◌==◌ sock waiting ≡ false
      → taken sock ≡ some t
      → t ≤ length text
      → (b == exit_byte) ≡ false
      → (on_data_received taken
            (rounds_for fs bytes fuel)
            server
            s
            sock
            (request_text (line_of m (u ∷ url) major minor) fs bytes)
          >>= λ r. on_data_received taken fuel2 r.0 r.1 sock (b ∷ more))
        ≡ err no_progress
  on_data_received-second fuel2 server {s} sock at start m u url target major minor fs bytes text t
        b more {entries} h word known here accepted asked site answers tracks idle takes le passed =
      let found : Map.find s.clients sock ≡ ok (some at) =
        find-Represents ◌==◌ IsWord sock h.clients.represents word ∙ ap ok known in
      let (server1, c, e, _, _, _, _, ended, left, _, _) =
        received taken fuel server sock at start m u url target major minor fs bytes text t h word
          known here accepted asked site answers tracks idle takes le in
      let seen : IsSeen (b ∷ more) = record {
        first = b;
        read = unfold read_byte in refl;
        passed = passed;
      } in
      ap (λ r. r >>= λ q. on_data_received taken fuel2 q.0 q.1 sock (b ∷ more)) e
      ∙ fed_again taken s sock at found fuel2 server1 start c (b ∷ more) here seen
      ∙ ap (λ r. r >>= λ q. leaving s at q.0 q.1)
          (execute_finished (settings s.site taken) fuel2 c.1 bytes b more
            (record { client = c.0; server = server1 }) ended left)
