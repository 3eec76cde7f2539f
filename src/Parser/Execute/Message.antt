-- ===== src/Parser/Execute/Message.antt =====
-- The rounds from the header of a request to the end of its message.
use librestserver.Libc.{Block}
use librestserver.Util.StringBuilder.Laws.{Spells}
use librestserver.Parser.State.{header, Parser, Settings, body, finished}
use librestserver.Parser.Execute.{run}
use librestserver.Parser.Execute.Chain.{run_bind, round-header}
use librestserver.Parser.Execute.Body.{InBody, bump, bump-zero, delivered}
use librestserver.Parser.Execute.Body.Complete.{run_at_end, run_complete}
use librestserver.Parser.Execute.Headers.{
  Field, AllFields, fields_text, length_after, tell_fields, run_fields,
}
use librestserver.Parser.Execute.Rounds.{line_end, AtLine}
use librestserver.Parser.Execute.Steps.{with_headers, header_round-blank}
use librestserver.Prelude.{
  subst, ℕ, suc, ◌+◌, ◌^◌, ◌<◌, ◌≡◌, refl, sym, ap, ◌∙◌, List, [], ◌∷◌, ◌++◌, append-nil, arith,
  length, Result, ok, ◌>>=◌, >>=_cong,
}

-- The rounds for a body that is there: one for the end, and one for the bytes if there are any.
abbrev pub body_rounds : Block → ℕ → ℕ
body_rounds [] fuel = suc fuel
body_rounds (b ∷ bytes) fuel = suc (suc fuel)

module _ {C : Type 0} (settings : Settings C) where
  -- A body that lies whole behind the header, or none.
  pub run_body :
      (fuel : ℕ) (p : Parser) (bytes : Block) (c : C)
      → InBody p [] bytes (length bytes)
      → run settings (body_rounds bytes fuel) p c ≡ (
          delivered settings bytes c >>= λ d.
          settings.on_message_complete (bump p (length bytes)) d >>= λ e.
          ok (record (bump p (length bytes)) { state = finished }, e))
  run_body fuel p [] c h =
      run_at_end settings fuel p [] [] c h
      ∙ ap (λ q. settings.on_message_complete q c >>= λ e. ok (record q { state = finished }, e))
          (sym (bump-zero settings p))
  run_body fuel p (b ∷ bytes) c h =
      let whole : InBody p [] ((b ∷ bytes) ++ []) (length (b ∷ bytes)) =
        subst (λ l. InBody p [] l (length (b ∷ bytes))) (sym (append-nil (b ∷ bytes))) h in
      run_complete settings fuel p [] b bytes [] c whole

  -- The owner is told of the lines of the header, of its end, of the body and of the end. The parser
  -- `q` stands behind the lines.
  abbrev pub tell_rest : List Field → Parser → Block → Parser → C → Result (Parser × C)
  tell_rest fs at_headers bytes at_end c = tell_fields settings fs c >>= λ f.
      settings.on_headers_complete at_headers f >>= λ g. delivered settings bytes g >>= λ h.
      settings.on_message_complete at_end h >>= λ i. ok (record at_end { state = finished }, i)

  pub run_header :
      (fuel : ℕ) (p : Parser) (fs : List Field) (bytes : Block)
      → p.state ≡ header
      → Spells p.buf (fields_text fs ++ (line_end ++ bytes))
      → p.last_pos ≡ 0
      → p.body_read ≡ 0
      → AllFields fs
      → length_after p.content_length fs ≡ length bytes
      → length bytes < 2 ^ 31
      → (at_headers at_end : Parser) × ((c : C)
          → run settings (length fs + suc (body_rounds bytes fuel)) p c
            ≡ tell_rest fs at_headers bytes at_end c)
        × (at_end.method ≡ p.method)
        × (at_end.http_major ≡ p.http_major)
        × (at_end.http_minor ≡ p.http_minor)
        × (at_end.body_read ≡ length bytes)
        × Spells at_end.buf bytes
  run_header fuel p fs bytes in_header spelled first no_body fields announced small =
      let (q, told, b) =
        run_fields settings (suc (body_rounds bytes fuel)) p fs (line_end ++ bytes) in_header
          spelled first fields in
      let at_blank : AtLine q [] bytes = record {
        contents = b.spelled;
        at_start = b.at_start;
        one_line = tt;
        small = omega arith;
      } in
      let (out, blank_round, left) = header_round-blank settings q bytes at_blank in
      let q1 : Parser = record (with_headers q out) { state = body } in
      let at_body : InBody q1 [] bytes (length bytes) = record {
        in_state = refl;
        contents = left;
        place = refl;
        remaining = omega (arith, b.announced, announced, b.read_kept, no_body);
        small_buffer = omega (arith, left.counted);
        small_body = omega (arith, b.announced, announced);
      } in
      (
        with_headers q out,
        bump q1 (length bytes),
        λ c.
            told c
            ∙ >>=_cong (tell_fields settings fs c) (λ f.
              run_bind settings (body_rounds bytes fuel) q f
                (settings.on_headers_complete (with_headers q out) f) q1
                (round-header settings q f (b.state_kept ∙ in_header) ∙ blank_round f)
              ∙ >>=_cong (settings.on_headers_complete (with_headers q out) f)
                  (λ g. run_body fuel q1 bytes g at_body)),
        b.method_kept,
        b.major_kept,
        b.minor_kept,
        omega (arith, b.read_kept, no_body),
        left,
      )
