-- ===== src/Client/Answer/Complete.antt =====
-- The end of a request, from RST_client_parser_on_message_complete to the routing.
use librestserver.Libc.{Block}
use librestserver.Util.Num.{CString}
use librestserver.Util.Keys.{IsKey, same_string}
use librestserver.Util.Map.{Table}
use librestserver.Util.Map.Laws.{IsMap}
use librestserver.Parser.State.{Parser, Method}
use librestserver.Parser.Execute.Body.{delivered}
use librestserver.Parser.Execute.Headers.{Field, AllFields, tell_fields}
use librestserver.Server.State.{Server}
use librestserver.Client.State.{Client, Site, Session}
use librestserver.Client.Collect.Headers.{kept, builder}
use librestserver.Client.Collect.Message.{
  Waiting, IsWaiting, Pairs, holding, settled, collected, save_header-holding, with_body, with_url,
  tell_fields-holding, on_url-first, delivered-first,
}
use librestserver.Client.Answer.Parsed.{IsParsed}
use librestserver.Http.Request.{Request, string_map}
use librestserver.Client.Answer.{
  answer_bad_request, complete_request, route, on_message_complete, settings,
}
use librestserver.Prelude.{
  subst, ℕ, ◌≡◌, refl, sym, ap, ◌∙◌, Bool, true, Option, none, some, List, [], if◌then◌else◌,
  Result, ok, ◌>>=◌,
}

-- A client before its first request.
pub record IsUnused (c : Client) : Type 0 where
  pub no_url : c.request.url ≡ builder []
  pub no_body : c.request.body ≡ builder []
  pub none_at_hand : holding c c.request.headers none ≡ c
  pub no_headers : IsMap same_string IsKey c.request.headers []
  pub no_params : c.request.query_params ≡ string_map

-- The client whose request has all its parts.
abbrev pub asking :
    Client → Method → Block → Block → ℕ → ℕ → Table CString → Table CString → Block → Client
asking c m url path major minor headers params bytes = record c {
  parser_last_was_value = true;
  parser_header_field = none;
  parser_header_value = none;
  request = record (c.request) {
    method = m;
    http_major = major;
    http_minor = minor;
    headers = headers;
    query_params = params;
    url = builder url;
    body = builder bytes;
    path = kept path;
  };
}

-- A request whose query was read is routed, another one refused.
abbrev pub answering : Site → (ℕ → Option ℕ) → Bool → Session → Result Session
answering site taken good s = if good then route site taken s else answer_bad_request site taken s

holding-with_body :
    (c : Client) (n : Table CString) (v : Waiting) (bytes : Block)
    → with_body (holding c n v) bytes ≡ holding (with_body c bytes) n v
holding-with_body c n none bytes = refl
holding-with_body c n (some (name, value)) bytes = refl

holding-no_body :
    (c : Client) (n : Table CString) (v : Waiting) → (holding c n v).request.body ≡ c.request.body
holding-no_body c n none = refl
holding-no_body c n (some (name, value)) = refl

module _ (site : Site) (taken : ℕ → Option ℕ) where
  -- The last pair is saved, and the request gets its path.
  on_message_complete-parsed :
      (p : Parser) (c : Client) (server : Server) (url path bytes : Block) {params : Table CString}
      {good : Bool} {n : Table CString} {qs : Pairs} (v : Waiting)
      → IsParsed c.request.query_params url path params good
      → IsMap same_string IsKey n qs
      → IsWaiting v
      → (headers : Table CString) × (on_message_complete site taken p
            (record { client = holding (with_body (with_url c url) bytes) n v; server = server })
          ≡ answering site taken good (record {
            client = asking c p.method url path p.http_major p.http_minor headers params bytes;
            server = server;
          }))
        × IsMap same_string IsKey headers (settled v qs)
  unfolding on_message_complete complete_request
  on_message_complete-parsed p c server url path bytes {params} {good} v parsed h waits =
      let (headers, saved, g) = save_header-holding (with_body (with_url c url) bytes) v h waits in
      let q : Request =
        (asking c p.method url path p.http_major p.http_minor headers c.request.query_params
          bytes).request in
      (
        headers,
        rw saved (rw (parsed.divided) (rw (parsed.copied) (rw (parsed.read q refl refl) refl))),
        g,
      )

  -- What the parser tells of a request, for a client before its first one, whatever comes behind it.
  pub told-parsed :
      {D : Type 0} (k : Session → Result D) (at_begin at_headers at_end : Parser) (c : Client)
      (server : Server) (url path : Block) {params : Table CString} {good : Bool} (fs : List Field)
      (bytes : Block)
      → IsUnused c
      → AllFields fs
      → IsParsed string_map url path params good
      → (headers : Table CString) × (((settings site taken).on_message_begin at_begin
              (record { client = c; server = server })
            >>= λ d. (settings site taken).on_url url d >>= λ e.
                tell_fields (settings site taken) fs e >>= λ f.
                (settings site taken).on_headers_complete at_headers f >>= λ g.
                delivered (settings site taken) bytes g >>= λ h.
                (settings site taken).on_message_complete at_end h >>= k)
          ≡ (answering site taken good (record {
            client =
                asking c at_end.method url path at_end.http_major at_end.http_minor headers params
                  bytes;
            server = server;
          })
              >>= k))
        × IsMap same_string IsKey headers (collected fs [])
  unfolding settings
  told-parsed k at_begin at_headers at_end c server url path {params} {good} fs bytes unused fields
        parsed =
      let d = with_url c url in
      let start : holding d c.request.headers none ≡ d =
        ap (λ k. with_url k url) unused.none_at_hand in
      let (n, v, qs, lines, h, waits, same) =
        tell_fields-holding site taken fs d server none unused.no_headers tt fields in
      let (headers, completed, g) =
        on_message_complete-parsed at_end c server url path bytes v
          (subst (λ old. IsParsed old url path params good) (sym unused.no_params) parsed) h
          waits in
      let filled : delivered (settings site taken) bytes
            (record { client = holding d n v; server = server })
          ≡ ok (record { client = holding (with_body d bytes) n v; server = server }) =
        delivered-first site taken (holding d n v) server bytes
          (holding-no_body d n v ∙ unused.no_body)
        ∙ ap (λ k. ok (record { client = k; server = server })) (holding-with_body d n v bytes) in
      let told : tell_fields (settings site taken) fs (record { client = d; server = server })
          ≡ ok (record { client = holding d n v; server = server }) =
        ap (λ k. tell_fields (settings site taken) fs (record { client = k; server = server }))
          (sym start)
        ∙ lines in
      (
        headers,
        rw (on_url-first site taken c server url unused.no_url)
            (rw told (rw filled (ap (λ r. r >>= k) completed))),
        subst (λ ps. IsMap same_string IsKey headers ps) same g,
      )
