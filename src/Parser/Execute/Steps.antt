-- ===== src/Parser/Execute/Steps.antt =====
-- The round of a request line, and that of the empty line behind the headers.
use librestserver.Libc.{Block, is_digit}
use librestserver.Libc.Bytes.{Lacks}
use librestserver.Util.StringBuilder.{StringBuilder}
use librestserver.Util.StringBuilder.Laws.{Spells}
use librestserver.Parser.State.{Parser, Settings, Method, header, body, size_sub, go_until_eq}
use librestserver.Parser.Line.{request_line}
use librestserver.Parser.Line.Laws.{word_of, version_text, request_line-parts}
use librestserver.Parser.Header.{header_line}
use librestserver.Parser.Execute.{Round, again, returned, drop_line, line_round, header_round}
use librestserver.Parser.Execute.Rounds.{line_end, AtLine, go_until_eq-AtLine, drop_line-AtLine}
use librestserver.Prelude.{
  fun_ext, ℕ, ◌+◌, ◌-◌, ◌^◌, ◌<◌, ◌≡◌, refl, ap, ap₂, ◌∙◌, Bool, true, some, [], ◌∷◌, ◌++◌,
  append_assoc, arith, if◌then◌else◌, length, length-append, Result, ok, ◌>>=◌, >>=_assoc,
}

-- The line `method url HTTP/x.y`.
abbrev pub line_of : Method → Block → ℕ → ℕ → Block
line_of m url major minor = word_of m ++ (b' ' ∷ (url ++ (b' ' ∷ version_text major minor [])))

-- The parser with the parts of a line, and the rest of its buffer.
abbrev pub with_line : Parser → Method → ℕ → ℕ → StringBuilder → Parser
with_line p m major minor out = record p {
  method = m;
  http_major = major - b'0';
  http_minor = minor - b'0';
  buf = out;
  last_pos = 0;
  state = header;
}

-- The parser behind the empty line.
abbrev pub with_headers : Parser → StringBuilder → Parser
with_headers p out = record p { buf = out; last_pos = 0 }

pub size_sub-start : (n : ℕ) (p : Parser) → p.last_pos ≡ 0 → n < 2 ^ 32 → size_sub n p.last_pos ≡ n
size_sub-start n p e h = ap (size_sub n) e ∙ small n h
  where
    small : (n : ℕ) → n < 2 ^ 32 → size_sub n 0 ≡ n
    small n h = ground arith

module _ {C : Type 0} (settings : Settings C) where
  -- What follows the search in a round of the request line.
  abbrev line_found : Parser → ℕ → Parser × C × Bool → Result (Round C)
  line_found p k r =
      if r.2
      then (drop_line r.0 k >>= λ q. ok (again (record q { state = header }) r.1))
      else ok (returned r.0 r.1)

  line_round-found :
      (p : Parser) (c : C) (k : ℕ)
      → go_until_eq p (13 ∷ 10 ∷ 0 ∷ []) ≡ ok (some k)
      → line_round settings p c ≡ (
          settings.on_message_begin p c >>= λ d.
          request_line settings p p.buf.buf (size_sub k p.last_pos) d >>= line_found p k)
  unfolding line_round
  line_round-found p c k e = rw e refl

  pub line_round-parts :
      (p : Parser) (m : Method) (u : ℕ) (url : Block) (major minor : ℕ) (rest : Block) (c : C)
      → AtLine p (line_of m (u ∷ url) major minor) rest
      → Lacks b' ' (u ∷ url)
      → is_digit major ≡ true
      → is_digit minor ≡ true
      → (out : StringBuilder) × (line_round settings p c ≡ (
          settings.on_message_begin p c >>= λ d.
          settings.on_url (u ∷ url) d >>= λ e. ok (again (with_line p m major minor out) e)))
        × Spells out rest
  line_round-parts p m u url major minor rest c h no_blank ma mi =
      let line = line_of m (u ∷ url) major minor in
      let behind = 13 ∷ 10 ∷ (rest ++ (0 ∷ [])) in
      let whole : p.buf.buf
          ≡ word_of m ++ (b' ' ∷ ((u ∷ url) ++ (b' ' ∷ version_text major minor behind))) =
        h.contents.exact
        ∙ append_assoc line (line_end ++ rest) (0 ∷ [])
        ∙ append_assoc (word_of m) (b' ' ∷ ((u ∷ url) ++ (b' ' ∷ version_text major minor [])))
            behind
        ∙ ap (λ r. word_of m ++ (b' ' ∷ r))
            (append_assoc (u ∷ url) (b' ' ∷ version_text major minor []) behind) in
      let size : size_sub (length line) p.last_pos ≡ length (word_of m) + 1 + length (u ∷ url) + 9 =
        size_sub-start (length line) p h.at_start h.small
        ∙ omega (
          arith,
          length-append (word_of m) (b' ' ∷ ((u ∷ url) ++ (b' ' ∷ version_text major minor []))),
          length-append (u ∷ url) (b' ' ∷ version_text major minor []),
        ) in
      let q : Parser = record p {
        method = m;
        http_major = major - b'0';
        http_minor = minor - b'0';
      } in
      let (out, dropped, spelled) = drop_line-AtLine h q refl in
      let parsed : (d : C)
          → (request_line settings p p.buf.buf (size_sub (length line) p.last_pos) d
              >>= line_found p (length line))
            ≡ (settings.on_url (u ∷ url) d >>= λ e. ok (again (with_line p m major minor out) e)) =
        λ d.
          ap₂ (λ b n. request_line settings p b n d >>= line_found p (length line)) whole size
          ∙ ap (λ r. r >>= line_found p (length line))
              (request_line-parts settings p m u url major minor behind d no_blank ma mi)
          ∙ >>=_assoc (settings.on_url (u ∷ url) d) (λ e. ok (kept q e))
              (line_found p (length line))
          ∙ ap (λ f. settings.on_url (u ∷ url) d >>= f)
              (fun_ext
                (λ e. ap (λ r. r >>= λ q'. ok (again (record q' { state = header }) e)) dropped)) in
      (
        out,
        line_round-found p c (length line) (go_until_eq-AtLine h)
            ∙ ap (λ f. settings.on_message_begin p c >>= f) (fun_ext parsed),
        spelled,
      )
    where
      kept : Parser → C → Parser × C × Bool
      kept q e = (q, e, true)

  pub header_round-blank :
      (p : Parser) (rest : Block)
      → AtLine p [] rest
      → (out : StringBuilder) × ((c : C)
          → header_round settings p c ≡ (
              settings.on_headers_complete (with_headers p out) c >>= λ d.
              ok (again (record (with_headers p out) { state = body }) d)))
        × Spells out rest
  unfolding header_round header_line
  header_round-blank p rest h =
      let (out, dropped, spelled) = drop_line-AtLine h p refl in
      let nothing : size_sub 0 p.last_pos ≡ 0 = size_sub-start 0 p h.at_start h.small in
      (out, λ c. rw (go_until_eq-AtLine h) (rw nothing (rw dropped refl)), spelled)
