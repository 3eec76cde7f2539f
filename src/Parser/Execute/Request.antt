-- ===== src/Parser/Execute/Request.antt =====
-- A whole request, from its first byte to the end of its message.
use librestserver.Libc.{Block, is_digit}
use librestserver.Libc.Bytes.{Lacks}
use librestserver.Util.StringBuilder.Laws.{Spells, append_n-all}
use librestserver.Parser.State.{Parser, Settings, Method, start, req_line, header, finished}
use librestserver.Parser.Execute.{again, run, execute}
use librestserver.Parser.Execute.Chain.{run_bind, round-start}
use librestserver.Parser.Execute.Body.{delivered}
use librestserver.Parser.Execute.Headers.{Field, AllFields, fields_text, length_after, tell_fields}
use librestserver.Parser.Execute.Message.{body_rounds, run_header}
use librestserver.Parser.Execute.Rounds.{line_end, AtLine}
use librestserver.Parser.Execute.Steps.{line_of, with_line, line_round-parts}
use librestserver.Prelude.{
  ℕ, suc, ◌+◌, ◌-◌, ◌^◌, ◌<◌, ◌≡◌, refl, sym, ap, ◌∙◌, true, false, List, [], ◌∷◌, ◌++◌, arith,
  ◌==◌, length, length-append, ok, ◌>>=◌, >>=_assoc, >>=_cong,
}

-- The bytes of a request: its line, the lines of its header, an empty line, and its body.
abbrev pub request_text : Block → List Field → Block → Block
request_text line fs bytes = line ++ (line_end ++ (fields_text fs ++ (line_end ++ bytes)))

-- A parser before the first byte of a request.
pub record IsFresh (p : Parser) : Type 0 where
  pub in_state : p.state ≡ start
  pub empty : Spells p.buf []
  pub at_start : p.last_pos ≡ 0
  pub unread : p.body_read ≡ 0

-- The line of a request that the parser accepts.
pub record IsLine (m : Method) (url : Block) (major minor : ℕ) : Type 0 where
  pub no_blank : Lacks b' ' url
  pub one_line : Lacks 13 (line_of m url major minor)
  pub major_digit : is_digit major ≡ true
  pub minor_digit : is_digit minor ≡ true
  pub small : length (line_of m url major minor) < 2 ^ 31

-- The parser inside the header of a request, where `n` is the content length so far.
pub record Opened (p : Parser) (m : Method) (major minor : ℕ) (behind : Block) (n : ℕ)
    : Type 0 where
  pub in_header : p.state ≡ header
  pub spelled : Spells p.buf behind
  pub at_start : p.last_pos ≡ 0
  pub unread : p.body_read ≡ 0
  pub announced : p.content_length ≡ n
  pub method_read : p.method ≡ m
  pub major_read : p.http_major ≡ major - b'0'
  pub minor_read : p.http_minor ≡ minor - b'0'

module _ {C : Type 0} (settings : Settings C) where
  -- The first round on a packet that starts with a whole line.
  pub execute_opening :
      (p : Parser) (m : Method) (u : ℕ) (url : Block) (major minor : ℕ) (behind : Block) (c : C)
      → IsFresh p
      → IsLine m (u ∷ url) major minor
      → (at_begin p1 : Parser) × ((fuel : ℕ)
          → execute settings
              (suc fuel)
              p
              (line_of m (u ∷ url) major minor ++ (line_end ++ behind))
              (length (line_of m (u ∷ url) major minor ++ (line_end ++ behind)))
              c
            ≡ (settings.on_message_begin at_begin c >>= λ d.
                settings.on_url (u ∷ url) d >>= run settings fuel p1))
        × Opened p1 m major minor behind p.content_length
  unfolding execute
  execute_opening p m u url major minor behind c fresh is_line =
      let line = line_of m (u ∷ url) major minor in
      let packet = line ++ (line_end ++ behind) in
      let some_bytes : (length packet == 0) ≡ false =
        ground (arith, length-append line (line_end ++ behind)) in
      let (out0, appended, spelled0) = append_n-all packet fresh.empty in
      let p0 : Parser = record p { buf = out0; state = req_line } in
      let at_line : AtLine p0 line behind = record {
        contents = spelled0;
        at_start = fresh.at_start;
        one_line = is_line.one_line;
        small = omega (arith, is_line.small);
      } in
      let (out1, first_round, spelled1) =
        line_round-parts settings p0 m u url major minor behind c at_line is_line.no_blank
          is_line.major_digit is_line.minor_digit in
      let p1 = with_line p0 m major minor out1 in
      let begun = settings.on_message_begin p0 c in
      (
        p0,
        p1,
        λ fuel. rw some_bytes (
            rw appended (
              run_bind settings fuel (record p { buf = out0 }) c
                (begun >>= settings.on_url (u ∷ url)) p1
                (round-start settings (record p { buf = out0 }) c fresh.in_state
                  ∙ first_round
                  ∙ sym (>>=_assoc begun (settings.on_url (u ∷ url)) (λ e. ok (again p1 e))))
              ∙ >>=_assoc begun (settings.on_url (u ∷ url)) (run settings fuel p1))),
        record {
          in_header = refl;
          spelled = spelled1;
          at_start = refl;
          unread = fresh.unread;
          announced = refl;
          method_read = refl;
          major_read = refl;
          minor_read = refl;
        },
      )

  -- A request that arrives in one packet at a fresh parser, with a body as long as its header
  -- announces. The lines of the header are a name, a colon, blanks and a value, where name and
  -- value are not empty, start with no blank, have no colon and no carriage return, and the name
  -- has no zero byte. The owner is told of its start, its url, each name and value, the end of the
  -- header, the body if there is one, and the end, in this order and once each. As many rounds as
  -- lines and four more are enough, three without a body. The method and the version are the
  -- line's.
  pub execute_message :
      (fuel : ℕ) (p : Parser) (m : Method) (u : ℕ) (url : Block) (major minor : ℕ) (fs : List Field)
      (bytes : Block) (c : C)
      → IsFresh p
      → IsLine m (u ∷ url) major minor
      → AllFields fs
      → length_after p.content_length fs ≡ length bytes
      → length bytes < 2 ^ 31
      → (at_begin at_headers at_end : Parser) × (execute settings
            (suc (length fs + suc (body_rounds bytes fuel)))
            p
            (request_text (line_of m (u ∷ url) major minor) fs bytes)
            (length (request_text (line_of m (u ∷ url) major minor) fs bytes))
            c
          ≡ (settings.on_message_begin at_begin c >>= λ d. settings.on_url (u ∷ url) d >>= λ e.
              tell_fields settings fs e >>= λ f. settings.on_headers_complete at_headers f >>= λ g.
              delivered settings bytes g >>= λ h. settings.on_message_complete at_end h >>= λ i.
              ok (record at_end { state = finished }, i)))
        × (at_end.method ≡ m)
        × (at_end.http_major ≡ major - b'0')
        × (at_end.http_minor ≡ minor - b'0')
        × (at_end.body_read ≡ length bytes)
        × Spells at_end.buf bytes
  execute_message fuel p m u url major minor fs bytes c fresh is_line fields announced small =
      let (at_begin, p1, opening, o) =
        execute_opening p m u url major minor (fields_text fs ++ (line_end ++ bytes)) c fresh
          is_line in
      let (at_headers, at_end, told, same_method, same_major, same_minor, read, left) =
        run_header settings fuel p1 fs bytes o.in_header o.spelled o.at_start o.unread fields
          (ap (λ n. length_after n fs) o.announced ∙ announced) small in
      (
        at_begin,
        at_headers,
        at_end,
        opening (length fs + suc (body_rounds bytes fuel))
            ∙ >>=_cong (settings.on_message_begin at_begin c)
                (λ d. >>=_cong (settings.on_url (u ∷ url) d) told),
        same_method ∙ o.method_read,
        same_major ∙ o.major_read,
        same_minor ∙ o.minor_read,
        read,
        left,
      )

  -- A request without headers and body that arrives in one packet at a fresh parser: the owner is
  -- told of its start, its url, the end of its headers and its end, in this order and once each, and
  -- three rounds are enough. The method and the version are the line's, and no byte is left over.
  pub execute_request :
      (fuel : ℕ) (p : Parser) (m : Method) (u : ℕ) (url : Block) (major minor : ℕ) (c : C)
      → IsFresh p
      → p.content_length ≡ 0
      → IsLine m (u ∷ url) major minor
      → (at_begin at_headers at_end : Parser) × (execute settings
            (suc (suc (suc fuel)))
            p
            (line_of m (u ∷ url) major minor ++ (line_end ++ line_end))
            (length (line_of m (u ∷ url) major minor ++ (line_end ++ line_end)))
            c
          ≡ (settings.on_message_begin at_begin c >>= λ d. settings.on_url (u ∷ url) d >>= λ e.
              settings.on_headers_complete at_headers e >>= λ f.
              settings.on_message_complete at_end f >>= λ g.
              ok (record at_end { state = finished }, g)))
        × (at_end.method ≡ m)
        × (at_end.http_major ≡ major - b'0')
        × (at_end.http_minor ≡ minor - b'0')
        × Spells at_end.buf []
  execute_request fuel p m u url major minor c fresh no_length is_line =
      let packet = request_text (line_of m (u ∷ url) major minor) [] [] in
      let (p1, p2, p3, e, same_method, same_major, same_minor, _, left) =
        execute_message fuel p m u url major minor [] [] c fresh is_line tt no_length
          (omega arith) in
      let rounds : suc (suc (suc fuel)) ≡ suc (0 + suc (suc fuel)) = omega arith in
      (
        p1,
        p2,
        p3,
        ap (λ n. execute settings n p packet (length packet) c) rounds ∙ e,
        same_method,
        same_major,
        same_minor,
        left,
      )
