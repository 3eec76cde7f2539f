-- ===== src/Service/Exchange.antt =====
-- A request of one packet, from RST_service_on_data_received to its answer.
use librestserver.Libc.{Block}
use librestserver.Util.Num.{CString}
use librestserver.Util.Keys.{IsKey, same_string}
use librestserver.Util.Map.{Table}
use librestserver.Util.Map
use librestserver.Util.Map.Laws.{IsMap}
use librestserver.Http.Request.{string_map}
use librestserver.Parser.State.{Parser, Method, finished}
use librestserver.Parser.Execute.Headers.{Field, AllFields, length_after}
use librestserver.Parser.Execute.Steps.{line_of}
use librestserver.Parser.Execute.Request.{request_text, IsLine}
use librestserver.Util.StringBuilder.Laws.{Spells}
use librestserver.Server.State.{Server}
use librestserver.Client.State.{Client, Site, Session}
use librestserver.Client.State as ClientState
use librestserver.Client.Collect.Message.{collected}
use librestserver.Client.Answer.Complete.{asking, answering}
use librestserver.Client.Answer.Parsed.{IsParsed}
use librestserver.Client.Answer.Targets.{
  Target, path_of, url_of, good_of, pairs_of, IsTarget, url_of-IsParsed,
}
use librestserver.Libc.Strings.{IsText}
use librestserver.Service.{Service, connection_at, on_data_received}
use librestserver.Service.Requests.{leaving, IsRequest, rounds_for, on_data_received-parsed}
use librestserver.Prelude.{
  subst, ℕ, ◌-◌, ◌^◌, ◌<◌, ◌≡◌, sym, Option, some, List, [], ◌∷◌, length, ok, ◌>>=◌,
}

-- A request by its text: the lines of its header are a name, a colon, blanks and a value without a
-- colon, and its url is what `t` spells.
pub record IsAsked (m : Method) (url : Block) (t : Target) (major minor : ℕ) (fs : List Field)
    (bytes : Block) : Type 0 where
  pub is_line : IsLine m url major minor
  pub written : url ≡ url_of t
  pub target : IsTarget t
  pub path_text : IsText (path_of t)
  pub fields : AllFields fs
  pub announced : length_after 0 fs ≡ length bytes
  pub small : length bytes < 2 ^ 31

pub asked-IsRequest :
    {m : Method} {url : Block} {t : Target} {major minor : ℕ} {fs : List Field} {bytes : Block}
    → IsAsked m url t major minor fs bytes
    → (params : Table CString) × IsMap same_string IsKey params (pairs_of t)
      × IsRequest m url (path_of t) major minor fs params (good_of t) bytes
asked-IsRequest {t = t} h =
    let (params, k, parsed) = url_of-IsParsed t h.target in
    (
      params,
      k,
      record {
        is_line = h.is_line;
        parsed =
            subst (λ u. IsParsed string_map u (path_of t) params (good_of t)) (sym h.written)
              parsed;
        path_text = h.path_text;
        fields = h.fields;
        announced = h.announced;
        small = h.small;
      },
    )

-- A request in one packet for a client that has just been accepted. The lines of its header are a
-- name, a colon, blanks and a value, where name and value are not empty, start with no blank, have
-- no colon and no carriage return, and the name has no zero byte; its url has no blank, and is a
-- path, a path with a query of one or two pairs, or a path with a query whose pair has a second
-- '='. In the last case it is refused, otherwise it is routed, with the method, the version, the
-- path, the headers and the body of the text. Its parameters are the pairs, the second one under a
-- key with an '=' at its end.
pub on_data_received-routed :
    (taken : ℕ → Option ℕ) (fuel : ℕ) (server : Server) (s : Service) (sock at : ℕ)
    (start : Client × Parser) (m : Method) (u : ℕ) (url : Block) (t : Target) (major minor : ℕ)
    (fs : List Field) (bytes : Block)
    → Map.find s.clients sock ≡ ok (some at)
    → connection_at s at ≡ ok start
    → ClientState.init sock ≡ ok start
    → IsAsked m (u ∷ url) t major minor fs bytes
    → (p : Parser) × (headers params : Table CString) × (on_data_received taken
          (rounds_for fs bytes fuel)
          server
          s
          sock
          (request_text (line_of m (u ∷ url) major minor) fs bytes)
        ≡ (answering s.site taken (good_of t) (record {
          client =
              asking start.0 m
                (u ∷ url)
                (path_of t)
                (major - b'0')
                (minor - b'0')
                headers
                params
                bytes;
          server = server;
        })
            >>= leaving s at p))
      × IsMap same_string IsKey headers (collected fs [])
      × IsMap same_string IsKey params (pairs_of t)
      × (p.state ≡ finished)
      × Spells p.buf bytes
on_data_received-routed taken fuel server s sock at start m u url t major minor fs bytes found here
      accepted h =
    let (params, k, request) = asked-IsRequest h in
    let (p, headers, e, g, ended, left) =
      on_data_received-parsed taken fuel server s sock at start m u url (path_of t) major minor fs
        params (good_of t) bytes found here accepted request in
    (p, headers, params, e, g, k, ended, left)
