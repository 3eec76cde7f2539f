-- ===== src/Client/Answer/Reply.antt =====
-- From a complete request to what the kernel takes of its response.
use librestserver.Libc.{Block}
use librestserver.Libc.Strings.{IsText}
use librestserver.Util.Num.{IsWord}
use librestserver.Util.Vector.Shape.{Holds}
use librestserver.Util.Map.Shape.{has}
use librestserver.Util.StringBuilder.{StringBuilder}
use librestserver.Util.StringBuilder.Laws.{Spells}
use librestserver.Http.Request.{Request}
use librestserver.Http.Response.{Response, to_string, init_bad_request}
use librestserver.Http.Response
use librestserver.Http.Release.{IsOwned, release-IsOwned}
use librestserver.Http.Resource.{Resource, handle_request}
use librestserver.Server.State.{Server}
use librestserver.Server.Send.{send}
use librestserver.Server.Send.Delivery.{Pending, sent_to}
use librestserver.Server.Send.Start.{Tracks, send-Pending}
use librestserver.Client.State.{Site, Session}
use librestserver.Client.Answer.{
  send_sb, send_response, handle_generic, handle_resource, route, answer_bad_request,
}
use librestserver.Client.Answer.Complete.{answering}
use librestserver.Client.Answer.Routing.{HasPaths, first_that_serves, find_resource-first}
use librestserver.Prelude.{
  ℕ, ◌≤◌, ◌≡◌, refl, sym, ap, ◌∙◌, Bool, true, false, Option, none, some, List, [], ◌∷◌, ◌++◌, ◌==◌,
  if◌then◌else◌, length, take, drop, null_pointer, Result, ok, ◌>>=◌, from_option, >>=_assoc,
  >>=_cong,
}

-- The response to a request: that of the handler of a resource, or else that of the generic handler.
abbrev pub handled_by : Site → Request → Option Resource → Result Response
handled_by site q (some r) = handle_request r q
handled_by site q none = Response.init >>= λ fresh.
    from_option site.generic_handler null_pointer >>= λ handler. handler q fresh

-- A request whose query could not be read is a bad one.
abbrev pub answer_to : Site → Request → Bool → Option Resource → Result Response
answer_to site q good chosen = if good then handled_by site q chosen else init_bad_request q none

-- The published resources, whose paths are texts.
pub record IsSite (site : Site) : Type 0 where
  pub named : Resource → Block
  pub resources : List Resource
  pub published : Holds site.resources resources
  pub paths : HasPaths named resources

-- A response that is there and can be released, with its text.
pub record IsRendered (made : Result Response) (text : Block) : Type 0 where
  pub response : Response
  pub handled : made ≡ ok response
  pub buffer : StringBuilder
  pub printed : to_string response ≡ ok buffer
  pub spelled : Spells buffer text
  pub releasable : IsOwned response

module _ (site : Site) (taken : ℕ → Option ℕ) where
  abbrev answered_by : Session → Option Resource → Result Session
  answered_by s found = elim found as (λ x. Result Session) [
    | none ↦ handle_generic site taken s
    | some r ↦ handle_resource site taken s r
  ]

  answered_by-made :
      (s : Session) (found : Option Resource)
      → answered_by s found
        ≡ (handled_by site s.client.request found >>= send_response site taken s)
  unfolding handle_generic handle_resource
  answered_by-made s (some r) = refl
  answered_by-made s none =
      let q = s.client.request in
      let handler = from_option site.generic_handler null_pointer in
      sym (
        >>=_assoc Response.init (λ fresh. handler >>= λ h. h q fresh) (send_response site taken s)
        ∙ >>=_cong Response.init
            (λ fresh. >>=_assoc handler (λ h. h q fresh) (send_response site taken s)))

  route-made :
      (s : Session) (path : Block) (h : IsSite site)
      → s.client.request.path ≡ some (path ++ (0 ∷ []))
      → IsText path
      → route site taken s ≡ (
          handled_by site s.client.request
            (first_that_serves h.named h.resources s.client.request path)
          >>= send_response site taken s)
  unfolding route
  route-made s path h asked text =
      ap (λ r. r >>= answered_by s)
        (find_resource-first h.named site s.client.request path h.resources h.published asked text
          h.paths)
      ∙ answered_by-made s (first_that_serves h.named h.resources s.client.request path)

  answering-made :
      (s : Session) (path : Block) (good : Bool) (h : IsSite site)
      → s.client.request.path ≡ some (path ++ (0 ∷ []))
      → IsText path
      → answering site taken good s ≡ (
          answer_to site s.client.request good
            (first_that_serves h.named h.resources s.client.request path)
          >>= send_response site taken s)
  unfolding answer_bad_request
  answering-made s path true h asked text = route-made s path h asked text
  answering-made s path false h asked text = refl

  send_response-sent :
      (s : Session) {text : Block} {made : Result Response} (h : IsRendered made text)
      (server : Server)
      → send s.server (taken s.client.socket) s.client.socket (text ++ (0 ∷ [])) (length text)
        ≡ ok server
      → (made >>= send_response site taken s)
        ≡ ok (record {
          client = record (s.client) { response_buffer = some h.buffer };
          server = server;
        })
  unfolding send_response send_sb
  send_response-sent s h server sent = rw (h.handled) (
      rw (h.printed) (
        rw (release-IsOwned h.response h.releasable)
          (rw (h.spelled.exact, h.spelled.counted) (rw sent refl))))

  -- A request on a socket that no response waits for: the response to it is kept with the client, its
  -- first bytes are taken, and the others wait for the loop.
  pub answering-Pending :
      (s : Session) (path : Block) (good : Bool) (text : Block) (t : ℕ) {writing : List ℕ}
      {entries : List (ℕ × ℕ)} (h : IsSite site)
      → s.client.request.path ≡ some (path ++ (0 ∷ []))
      → IsText path
      → IsRendered
          (answer_to site s.client.request good
            (first_that_serves h.named h.resources s.client.request path))
          text
      → Tracks s.server writing entries
      → IsWord s.client.socket
      → has ◌==◌ s.client.socket entries ≡ false
      → taken s.client.socket ≡ some t
      → t ≤ length text
      → (server : Server) × (buffer : StringBuilder) × (answering site taken good s
          ≡ ok (record {
            client = record (s.client) { response_buffer = some buffer };
            server = server;
          }))
        × Pending server s.client.socket (take t text) (drop t text) (0 ∷ [])
        × (sent_to s.client.socket server.wire
            ≡ sent_to s.client.socket s.server.wire ++ take t text)
  answering-Pending s path good text t h asked is_text rendered tracks word idle takes le =
      let (server, sent, pending, wire) =
        send-Pending s.client.socket t text (0 ∷ []) tracks word idle le in
      (
        server,
        rendered.buffer,
        answering-made s path good h asked is_text
            ∙ send_response-sent s rendered server (
                ap (λ r. send s.server r s.client.socket (text ++ (0 ∷ [])) (length text)) takes
                ∙ sent),
        pending,
        wire,
      )
