-- ===== src/Service/Split.antt =====
-- A request in two packets, through the service.
use librestserver.Libc.{Block, read_byte}
use librestserver.Util.Num.{CString}
use librestserver.Util.Keys.{IsKey, same_string}
use librestserver.Util.Map.{Table}
use librestserver.Util.Map
use librestserver.Util.Map.Laws.{IsMap}
use librestserver.Parser.State.{Parser, Method, finished}
use librestserver.Parser.Execute.{execute}
use librestserver.Parser.Execute.Headers.{Field, field_line, fields_text, length_after}
use librestserver.Parser.Execute.Message.{body_rounds}
use librestserver.Parser.Execute.Rounds.{line_end}
use librestserver.Parser.Execute.Steps.{line_of}
use librestserver.Parser.Execute.Split.{execute_split}
use librestserver.Server.State.{Server}
use librestserver.Client.State.{Client, Session}
use librestserver.Client.State as ClientState
use librestserver.Client.Collect.Message.{collected}
use librestserver.Client.Answer.{settings}
use librestserver.Client.Answer.Complete.{asking, answering}
use librestserver.Service.{Service, connection_at, exit_byte, feed, on_data_received}
use librestserver.Service.Accepted.{accepted-IsNew}
use librestserver.Service.Requests.{leaving, IsRequest, concluded, no_exit, on_data_received-parts}
use librestserver.Service.Whole.{connection_at-set}
use librestserver.Prelude.{
  ℕ, zero, suc, ◌+◌, ◌-◌, ◌≡◌, refl, sym, ap, ◌∙◌, Bool, false, Option, some, List, [], ◌∷◌, ◌++◌,
  ◌==◌, length, set, Result, ok, ◌>>=◌, >>=_assoc, >>=_cong,
}

set-set : {A : Type 0} (xs : List A) (i : ℕ) (x y : A) → set (set xs i x) i y ≡ set xs i y
set-set [] i x y = refl
set-set (z ∷ xs) zero x y = refl
set-set (z ∷ xs) (suc i) x y = ap (λ l. z ∷ l) (set-set xs i x y)

-- A packet that the client's parser gets to see.
pub record IsSeen (packet : Block) : Type 0 where
  pub first : ℕ
  pub read : read_byte packet 0 ≡ ok first
  pub passed : (first == exit_byte) ≡ false

module _ (taken : ℕ → Option ℕ) (s : Service) (sock at : ℕ)
    (found : Map.find s.clients sock ≡ ok (some at)) where
  abbrev replaced : Client × Parser → Service
  replaced c = record s { connections = set s.connections at (some c) }

  -- The parser runs on the session.
  abbrev executed : ℕ → Block → Parser → Session → Result (Parser × Session)
  executed fuel packet p = execute (settings s.site taken) fuel p packet (length packet)

  fed :
      (fuel : ℕ) (server : Server) (c : Client × Parser) (packet : Block)
      → connection_at s at ≡ ok c
      → IsSeen packet
      → on_data_received taken fuel server s sock packet ≡ (
          executed fuel packet c.1 (record { client = c.0; server = server }) >>= λ r.
          leaving s at r.0 r.1)
  unfolding feed
  fed fuel server c packet here h =
      on_data_received-parts taken fuel server s sock at h.first packet c found here h.read h.passed

  pub fed_again :
      (fuel : ℕ) (server : Server) (c d : Client × Parser) (packet : Block)
      → connection_at s at ≡ ok c
      → IsSeen packet
      → on_data_received taken fuel server (replaced d) sock packet ≡ (
          executed fuel packet d.1 (record { client = d.0; server = server }) >>= λ r.
          leaving s at r.0 r.1)
  unfolding feed
  fed_again fuel server c d packet here h =
      on_data_received-parts taken fuel server (replaced d) sock at h.first packet d found
        (connection_at-set s at c d here) h.read h.passed
      ∙ >>=_cong (executed fuel packet d.1 (record { client = d.0; server = server })) (λ r.
        ap (λ l. ok ((r.1).server, record s { connections = l }, false))
          (set-set s.connections at (some d) (some ((r.1).client, r.0))))

  -- Two calls in a row run the parser twice.
  fed_twice :
      (fuel fuel2 : ℕ) (server : Server) (c : Client × Parser) (packet packet2 : Block)
      → connection_at s at ≡ ok c
      → IsSeen packet
      → IsSeen packet2
      → (on_data_received taken fuel server s sock packet >>= λ r.
          on_data_received taken fuel2 r.0 r.1 sock packet2)
        ≡ ((executed fuel packet c.1 (record { client = c.0; server = server }) >>= λ r.
              executed fuel2 packet2 r.0 r.1)
            >>= λ r. leaving s at r.0 r.1)
  fed_twice fuel fuel2 server c packet packet2 here h k =
      let once = executed fuel packet c.1 (record { client = c.0; server = server }) in
      ap (λ r. r >>= λ q. on_data_received taken fuel2 q.0 q.1 sock packet2)
        (fed fuel server c packet here h)
      ∙ >>=_assoc once (λ r. leaving s at r.0 r.1)
          (λ q. on_data_received taken fuel2 q.0 q.1 sock packet2)
      ∙ >>=_cong once (λ r. fed_again fuel2 (r.1).server c ((r.1).client, r.0) packet2 here k)
      ∙ sym (>>=_assoc once (λ r. executed fuel2 packet2 r.0 r.1) (λ r. leaving s at r.0 r.1))

  -- A request in two packets, cut inside a line of its header, for a client that has just been
  -- accepted: the two calls do together what one call does with the whole request. The lines of the
  -- header are a name, a colon, blanks and a value, where name and value are not empty, start with
  -- no blank, have no colon and no carriage return, and the name has no zero byte. Path and
  -- parameters are those that the code finds in the url.
  pub on_data_received-split :
      (fuel fuel2 : ℕ) (server : Server) (start : Client × Parser) (m : Method) (u : ℕ)
      (url path : Block) (major minor : ℕ) (fs gs : List Field) (f : Field) (part rest : Block)
      (params : Table CString) (good : Bool) (bytes : Block)
      → connection_at s at ≡ ok start
      → ClientState.init sock ≡ ok start
      → IsRequest m (u ∷ url) path major minor (fs ++ (f ∷ gs)) params good bytes
      → field_line f ≡ part ++ rest
      → IsSeen (rest ++ (line_end ++ (fields_text gs ++ (line_end ++ bytes))))
      → (p : Parser) × (headers : Table CString) × ((on_data_received taken
              (suc (length fs + suc fuel))
              server
              s
              sock
              (line_of m (u ∷ url) major minor ++ (line_end ++ (fields_text fs ++ part)))
            >>= λ r.
                on_data_received taken
                  (length (f ∷ gs) + suc (body_rounds bytes fuel2))
                  r.0
                  r.1
                  sock
                  (rest ++ (line_end ++ (fields_text gs ++ (line_end ++ bytes)))))
          ≡ (answering s.site taken good (record {
            client =
                asking start.0 m (u ∷ url) path (major - b'0') (minor - b'0') headers params bytes;
            server = server;
          })
              >>= leaving s at p))
        × IsMap same_string IsKey headers (collected (fs ++ (f ∷ gs)) [])
        × (p.state ≡ finished)
  on_data_received-split fuel fuel2 server start m u url path major minor fs gs f part rest params
        good bytes here accepted h cut seen =
      let new = accepted-IsNew sock start accepted in
      let packet = line_of m (u ∷ url) major minor ++ (line_end ++ (fields_text fs ++ part)) in
      let packet2 = rest ++ (line_end ++ (fields_text gs ++ (line_end ++ bytes))) in
      let rounds = suc (length fs + suc fuel) in
      let rounds2 = length (f ∷ gs) + suc (body_rounds bytes fuel2) in
      let (b, first, passed) =
        no_exit m (u ∷ url) major minor (line_end ++ (fields_text fs ++ part)) in
      let opened : IsSeen packet = record { first = b; read = first; passed = passed } in
      let (at_begin, at_headers, at_end, told, same_method, same_major, same_minor, _, _) =
        execute_split (settings s.site taken) fuel fuel2 start.1 m u url major minor fs gs f part
          rest bytes (record { client = start.0; server = server }) new.fresh h.is_line h.fields cut
          (ap (λ n. length_after n (fs ++ (f ∷ gs))) new.no_length ∙ h.announced) h.small in
      let (headers, e, g) =
        concluded taken server s at start.0 m (u ∷ url) path (major - b'0') (minor - b'0')
          (fs ++ (f ∷ gs)) bytes at_begin at_headers at_end
          (executed rounds packet start.1 (record { client = start.0; server = server }) >>= λ r.
            executed rounds2 packet2 r.0 r.1)
          new.unused h.fields h.parsed told same_method same_major same_minor in
      (
        record at_end { state = finished },
        headers,
        fed_twice rounds rounds2 server start packet packet2 here opened seen ∙ e,
        g,
        refl,
      )
