-- ===== src/Service/Requests.antt =====
-- A request of one packet, from RST_service_on_data_received to its answer, by the parts that the code
-- finds in its url.
use librestserver.Libc.{Block, read_byte}
use librestserver.Util.Num.{CString}
use librestserver.Util.Keys.{IsKey, same_string}
use librestserver.Util.Map.{Table}
use librestserver.Util.Map
use librestserver.Util.Map.Laws.{IsMap}
use librestserver.Http.Request.{string_map}
use librestserver.Parser.State.{Parser, Method, get, post, put, delete, finished}
use librestserver.Parser.Execute.Headers.{Field, AllFields, fields_text, length_after, tell_fields}
use librestserver.Parser.Execute.Message.{body_rounds}
use librestserver.Parser.Execute.Rounds.{line_end}
use librestserver.Parser.Execute.Steps.{line_of}
use librestserver.Parser.Execute.Request.{request_text, IsLine, execute_message}
use librestserver.Parser.Execute.{execute}
use librestserver.Parser.Execute.Body.{delivered}
use librestserver.Util.StringBuilder.Laws.{Spells}
use librestserver.Service.Accepted.{accepted-IsNew}
use librestserver.Server.State.{Server}
use librestserver.Client.State.{Client, Site, Session}
use librestserver.Client.State as ClientState
use librestserver.Client.Collect.Message.{collected}
use librestserver.Client.Answer.{settings}
use librestserver.Client.Answer.Complete.{IsUnused, asking, answering, told-parsed}
use librestserver.Client.Answer.Parsed.{IsParsed}
use librestserver.Libc.Strings.{IsText}
use librestserver.Service.{Service, connection_at, exit_byte, feed, on_data_received}
use librestserver.Prelude.{
  ℕ, suc, ◌+◌, ◌-◌, ◌^◌, ◌<◌, ◌≡◌, refl, ap, ap₂, ◌∙◌, Bool, false, Option, some, List, [], ◌∷◌,
  ◌++◌, ◌==◌, length, set, Result, ok, ◌>>=◌, >>=_assoc,
}

-- The first byte of a request is the first letter of a method.
pub no_exit :
    (m : Method) (url : Block) (major minor : ℕ) (behind : Block)
    → (b : ℕ) × (read_byte (line_of m url major minor ++ behind) 0 ≡ ok b)
      × ((b == exit_byte) ≡ false)
unfolding read_byte
no_exit get url major minor behind = (b'G', refl, refl)
no_exit post url major minor behind = (b'P', refl, refl)
no_exit put url major minor behind = (b'P', refl, refl)
no_exit delete url major minor behind = (b'D', refl, refl)

-- What a call of the callback leaves of the service, when the client's session ends as `r`.
abbrev pub leaving : Service → ℕ → Parser → Session → Result (Server × Service × Bool)
leaving s at p r =
    ok (r.server, record s { connections = set s.connections at (some (r.client, p)) }, false)

pub on_data_received-parts :
    (taken : ℕ → Option ℕ) (fuel : ℕ) (server : Server) (s : Service) (sock at b : ℕ) (buf : Block)
    (c : Client × Parser)
    → Map.find s.clients sock ≡ ok (some at)
    → connection_at s at ≡ ok c
    → read_byte buf 0 ≡ ok b
    → (b == exit_byte) ≡ false
    → on_data_received taken fuel server s sock buf ≡ feed taken fuel server s at buf c
unfolding on_data_received
on_data_received-parts taken fuel server s sock at b buf c found here first passed =
    rw found (rw here (rw first (rw passed refl)))

-- A request with a body as long as its header says. Its url is split into a path and parameters, if
-- its query can be read.
pub record IsRequest (m : Method) (url path : Block) (major minor : ℕ) (fs : List Field)
    (params : Table CString) (good : Bool) (bytes : Block) : Type 0 where
  pub is_line : IsLine m url major minor
  pub parsed : IsParsed string_map url path params good
  pub path_text : IsText path
  pub fields : AllFields fs
  pub announced : length_after 0 fs ≡ length bytes
  pub small : length bytes < 2 ^ 31

-- As many rounds of the parser as are enough for a request, and `fuel` more.
abbrev pub rounds_for : List Field → Block → ℕ → ℕ
rounds_for fs bytes fuel = suc (length fs + suc (body_rounds bytes fuel))

-- When the runs of the parser have told all of a request, the client answers it.
pub concluded :
    (taken : ℕ → Option ℕ) (server : Server) (s : Service) (at : ℕ) (c : Client) (m : Method)
    (url path : Block) (major minor : ℕ) (fs : List Field) {params : Table CString} {good : Bool}
    (bytes : Block) (at_begin at_headers at_end : Parser) (run : Result (Parser × Session))
    → IsUnused c
    → AllFields fs
    → IsParsed string_map url path params good
    → run ≡ (
        (settings s.site taken).on_message_begin at_begin (record { client = c; server = server })
        >>= λ d. (settings s.site taken).on_url url d >>= λ e.
            tell_fields (settings s.site taken) fs e >>= λ f.
            (settings s.site taken).on_headers_complete at_headers f >>= λ g.
            delivered (settings s.site taken) bytes g >>= λ h.
            (settings s.site taken).on_message_complete at_end h >>= λ i.
            ok (record at_end { state = finished }, i))
    → at_end.method ≡ m
    → at_end.http_major ≡ major
    → at_end.http_minor ≡ minor
    → (headers : Table CString) × ((run >>= λ r. leaving s at r.0 r.1) ≡ (
        answering s.site taken good (record {
          client = asking c m url path major minor headers params bytes;
          server = server;
        })
        >>= leaving s at (record at_end { state = finished })))
      × IsMap same_string IsKey headers (collected fs [])
concluded taken server s at c m url path major minor fs {params} {good} bytes at_begin at_headers
      at_end run unused fields parsed told same_method same_major same_minor =
    let q : Parser = record at_end { state = finished } in
    let (headers, routed, g) =
      told-parsed s.site taken {D = Parser × Session} (λ i. ok (q, i)) at_begin at_headers at_end c
        server url path fs bytes unused fields parsed in
    let answered : Method → ℕ → ℕ → Result Session = λ x y z.
      answering s.site taken good
        (record { client = asking c x url path y z headers params bytes; server = server }) in
    (
      headers,
      ap (λ r. r >>= λ r. leaving s at r.0 r.1) (told ∙ routed)
          ∙ >>=_assoc (answered at_end.method at_end.http_major at_end.http_minor) (λ i. ok (q, i))
              (λ r. leaving s at r.0 r.1)
          ∙ ap (λ x. answered x at_end.http_major at_end.http_minor >>= leaving s at q) same_method
          ∙ ap₂ (λ y z. answered m y z >>= leaving s at q) same_major same_minor,
      g,
    )

-- What is routed or refused, by the parts that the code finds in the url.
pub on_data_received-parsed :
    (taken : ℕ → Option ℕ) (fuel : ℕ) (server : Server) (s : Service) (sock at : ℕ)
    (start : Client × Parser) (m : Method) (u : ℕ) (url path : Block) (major minor : ℕ)
    (fs : List Field) (params : Table CString) (good : Bool) (bytes : Block)
    → Map.find s.clients sock ≡ ok (some at)
    → connection_at s at ≡ ok start
    → ClientState.init sock ≡ ok start
    → IsRequest m (u ∷ url) path major minor fs params good bytes
    → (p : Parser) × (headers : Table CString) × (on_data_received taken
          (rounds_for fs bytes fuel)
          server
          s
          sock
          (request_text (line_of m (u ∷ url) major minor) fs bytes)
        ≡ (answering s.site taken good (record {
          client =
              asking start.0 m (u ∷ url) path (major - b'0') (minor - b'0') headers params bytes;
          server = server;
        })
            >>= leaving s at p))
      × IsMap same_string IsKey headers (collected fs [])
      × (p.state ≡ finished)
      × Spells p.buf bytes
unfolding feed
on_data_received-parsed taken fuel server s sock at start m u url path major minor fs params good
      bytes found here accepted h =
    let new = accepted-IsNew sock start accepted in
    let packet = request_text (line_of m (u ∷ url) major minor) fs bytes in
    let rounds = rounds_for fs bytes fuel in
    let (b, first, passed) =
      no_exit m (u ∷ url) major minor (line_end ++ (fields_text fs ++ (line_end ++ bytes))) in
    let (at_begin, at_headers, at_end, told, same_method, same_major, same_minor, _, left) =
      execute_message (settings s.site taken) fuel start.1 m u url major minor fs bytes
        (record { client = start.0; server = server }) new.fresh h.is_line h.fields
        (ap (λ n. length_after n fs) new.no_length ∙ h.announced) h.small in
    let (headers, e, g) =
      concluded taken server s at start.0 m (u ∷ url) path (major - b'0') (minor - b'0') fs bytes
        at_begin at_headers at_end
        (execute (settings s.site taken) rounds start.1 packet (length packet)
          (record { client = start.0; server = server }))
        new.unused h.fields h.parsed told same_method same_major same_minor in
    (
      record at_end { state = finished },
      headers,
      on_data_received-parts taken rounds server s sock at b packet start found here first passed
          ∙ e,
      g,
      refl,
      left,
    )
