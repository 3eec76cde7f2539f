-- ===== src/Parser/Execute/Headers.antt =====
-- The rounds of the header lines of RST_requestparser_execute.
use librestserver.Libc.{Block, codes}
use librestserver.Libc.Bytes.{Lacks}
use librestserver.Libc.Strings.{IsText, same_text}
use librestserver.Util.StringBuilder.{StringBuilder}
use librestserver.Util.StringBuilder.Laws.{Spells}
use librestserver.Parser.State.{header, Parser, Settings, body, size_sub}
use librestserver.Parser.Header.{scan_length, header_line}
use librestserver.Parser.Header.Lines.{IsShown, behind_name}
use librestserver.Parser.Header.Pairs.{with_length, header_line_pair}
use librestserver.Parser.Execute.{run, again, header_round, drop_line}
use librestserver.Parser.Execute.Chain.{run_bind, round-header}
use librestserver.Parser.Execute.Rounds.{line_end, AtLine, go_until_eq-AtLine, drop_line-AtLine}
use librestserver.Parser.Execute.Steps.{size_sub-start}
use librestserver.Prelude.{
  subst, ℕ, suc, ◌+◌, ◌^◌, ◌<◌, ◌≡◌, refl, sym, ap, ap₂, ◌∙◌, Bool, true, false, List, [], ◌∷◌,
  ◌++◌, append_assoc, arith, if◌then◌else◌, length, replicate, length-append, length-replicate,
  Result, ok, err, ◌>>=◌, >>=_assoc, >>=_cong,
}

-- A line `name: value` of a request, by the first byte and the rest of its two texts.
pub record Field : Type 0 where
  pub initial : ℕ
  pub rest_of_name : Block
  pub blanks : ℕ
  pub first : ℕ
  pub rest_of_value : Block

abbrev pub name_of : Field → Block
name_of f = f.initial ∷ f.rest_of_name

abbrev pub value_of : Field → Block
value_of f = f.first ∷ f.rest_of_value

abbrev pub field_line : Field → Block
field_line f = name_of f ++ behind_name f.blanks (value_of f) []

-- Name and value have no colon, do not start with a blank, and the line is short and has no end in
-- it.
pub record IsField (f : Field) : Type 0 where
  pub name_shown : IsShown (name_of f)
  pub name_text : IsText (name_of f)
  pub value_shown : IsShown (value_of f)
  pub one_line : Lacks 13 (field_line f)
  pub small : length (field_line f) < 2 ^ 32

abbrev pub AllFields : List Field → Type 0
AllFields [] = Unit
AllFields (f ∷ fs) = IsField f × AllFields fs

abbrev pub fields_text : List Field → Block
fields_text [] = []
fields_text (f ∷ fs) = field_line f ++ (line_end ++ fields_text fs)

-- The content length behind the lines, from that in front of them.
abbrev pub length_after : ℕ → List Field → ℕ
length_after n [] = n
length_after n (f ∷ fs) =
    length_after
      (if same_text (name_of f) (codes "Content-Length") then scan_length n (value_of f) else n) fs

-- The parser `q` differs from `p` in its place, its buffer and its content length only.
pub record Behind (p q : Parser) (rest : Block) (n : ℕ) : Type 0 where
  pub state_kept : q.state ≡ p.state
  pub method_kept : q.method ≡ p.method
  pub major_kept : q.http_major ≡ p.http_major
  pub minor_kept : q.http_minor ≡ p.http_minor
  pub read_kept : q.body_read ≡ p.body_read
  pub spelled : Spells q.buf rest
  pub at_start : q.last_pos ≡ 0
  pub announced : q.content_length ≡ n

-- The parser behind one line.
abbrev pub with_field : Parser → Field → StringBuilder → Parser
with_field p f out = record (with_length p (name_of f) (value_of f)) { buf = out; last_pos = 0 }

with_length-buf : (p : Parser) (name value : Block) → (with_length p name value).buf ≡ p.buf
with_length-buf p name value = ground arith

with_field-Behind :
    (p : Parser) (f : Field) (out : StringBuilder) {rest : Block}
    → Spells out rest
    → Behind p (with_field p f out) rest (length_after p.content_length (f ∷ []))
with_field-Behind p f out sp = record {
  state_kept = ground arith;
  method_kept = ground arith;
  major_kept = ground arith;
  minor_kept = ground arith;
  read_kept = ground arith;
  spelled = sp;
  at_start = refl;
  announced = ground arith;
}

field_size :
    (f : Field)
    → length (field_line f)
      ≡ suc (length f.rest_of_name + suc (f.blanks + suc (length f.rest_of_value)))
field_size f = omega (
  arith,
  length-append (name_of f) (behind_name f.blanks (value_of f) []),
  length-append (replicate f.blanks b' ') (value_of f ++ []),
  length-append (value_of f) [],
  length-replicate {A = ℕ} f.blanks b' ',
)

module _ {C : Type 0} (settings : Settings C) where
  -- The owner is told of a line, and of several ones.
  abbrev pub tell_field : Field → C → Result C
  tell_field f c = settings.on_header_field (name_of f) c >>= settings.on_header_value (value_of f)

  abbrev pub tell_fields : List Field → C → Result C
  tell_fields [] c = ok c
  tell_fields (f ∷ fs) c = tell_field f c >>= tell_fields fs

  header_line-field :
      (p : Parser) (f : Field) (post : Block) (c : C)
      → IsField f
      → header_line settings p (field_line f ++ post) (length (field_line f)) c
        ≡ (tell_field f c >>= λ e. ok (with_length p (name_of f) (value_of f), e, true, false))
  header_line-field p f post c h =
      let split : field_line f ++ post ≡ name_of f ++ behind_name f.blanks (value_of f) post =
        append_assoc (name_of f) (behind_name f.blanks (value_of f) []) post
        ∙ ap (λ l. name_of f ++ (b':' ∷ l))
            (append_assoc (replicate f.blanks b' ') (value_of f ++ []) post
              ∙ ap (λ l. replicate f.blanks b' ' ++ l) (append_assoc (value_of f) [] post)) in
      ap₂ (λ b n. header_line settings p b n c) split (field_size f)
      ∙ header_line_pair settings p f.initial f.rest_of_name f.blanks f.first f.rest_of_value post c
          h.name_shown h.name_text h.value_shown
      ∙ sym (
          >>=_assoc (settings.on_header_field (name_of f) c) (settings.on_header_value (value_of f))
            (λ e. ok (with_length p (name_of f) (value_of f), e, true, false)))

  -- The results of a line that passes.
  abbrev behind_field : Parser → C → Parser × C × Bool × Bool
  behind_field q e = (q, e, true, false)

  pub header_round-field :
      (p : Parser) (f : Field) (rest : Block)
      → IsField f
      → AtLine p (field_line f) rest
      → (out : StringBuilder) × ((c : C)
          → header_round settings p c ≡ (tell_field f c >>= λ e. ok (again (with_field p f out) e)))
        × Spells out rest
  unfolding header_round
  header_round-field p f rest h at =
      let q = with_length p (name_of f) (value_of f) in
      let (out, dropped, spelled) =
        drop_line-AtLine at q (with_length-buf p (name_of f) (value_of f)) in
      let whole : p.buf.buf ≡ field_line f ++ (line_end ++ (rest ++ (0 ∷ []))) =
        at.contents.exact
        ∙ append_assoc (field_line f) (line_end ++ rest) (0 ∷ [])
        ∙ ap (λ l. field_line f ++ l) (append_assoc line_end rest (0 ∷ [])) in
      let size = size_sub-start (length (field_line f)) p at.at_start at.small in
      let parsed : (c : C)
          → header_line settings p p.buf.buf (size_sub (length (field_line f)) p.last_pos) c
            ≡ (tell_field f c >>= λ e. ok (behind_field q e)) =
        λ c.
          ap₂ (λ b n. header_line settings p b n c) whole size
          ∙ header_line-field p f (line_end ++ (rest ++ (0 ∷ []))) c h in
      (
        out,
        λ c. rw (go_until_eq-AtLine at) (rw (parsed c) (go q out dropped (tell_field f c))),
        spelled,
      )
    where
      go :
          (q : Parser) (out : StringBuilder)
          → drop_line q (length (field_line f)) ≡ ok (record q { buf = out; last_pos = 0 })
          → (m : Result C)
          → ((m >>= λ e. ok (behind_field q e)) >>= λ (r : Parser × C × Bool × Bool).
              drop_line r.0 (length (field_line f)) >>= λ t.
              if r.3
              then (settings.on_headers_complete t r.1 >>= λ d.
                  ok (again (record t { state = body }) d))
              else ok (again t r.1))
            ≡ (m >>= λ e. ok (again (record q { buf = out; last_pos = 0 }) e))
      go q out dropped (ok e) = rw dropped refl
      go q out dropped (err e) = refl

  -- The lines of a header that stands whole in the buffer: the owner is told of each in turn, and the
  -- loop goes on behind them.
  pub run_fields :
      (fuel : ℕ) (p : Parser) (fs : List Field) (rest : Block)
      → p.state ≡ header
      → Spells p.buf (fields_text fs ++ rest)
      → p.last_pos ≡ 0
      → AllFields fs
      → (q : Parser) × ((c : C)
          → run settings (length fs + fuel) p c ≡ (tell_fields fs c >>= run settings fuel q))
        × Behind p q rest (length_after p.content_length fs)
  run_fields fuel p [] rest in_header spelled first h = (
    p,
    λ c. ap (λ n. run settings n p c) (omega arith),
    record {
      state_kept = refl;
      method_kept = refl;
      major_kept = refl;
      minor_kept = refl;
      read_kept = refl;
      spelled = spelled;
      at_start = first;
      announced = refl;
    },
  )
  run_fields fuel p (f ∷ fs) rest in_header spelled first h =
      let split : fields_text (f ∷ fs) ++ rest
          ≡ field_line f ++ (line_end ++ (fields_text fs ++ rest)) =
        append_assoc (field_line f) (line_end ++ fields_text fs) rest
        ∙ ap (λ l. field_line f ++ l) (append_assoc line_end (fields_text fs) rest) in
      let at : AtLine p (field_line f) (fields_text fs ++ rest) = record {
        contents = subst (λ l. Spells p.buf l) split spelled;
        at_start = first;
        one_line = h.0.one_line;
        small = h.0.small;
      } in
      let (out, e, sp) = header_round-field p f (fields_text fs ++ rest) h.0 at in
      let p1 = with_field p f out in
      let b = with_field-Behind p f out sp in
      let (q, g, r) = run_fields fuel p1 fs rest (b.state_kept ∙ in_header) b.spelled refl h.1 in
      (
        q,
        λ c.
            ap (λ n. run settings n p c) (omega arith)
            ∙ run_bind settings (length fs + fuel) p c (tell_field f c) p1
                (round-header settings p c in_header ∙ e c)
            ∙ >>=_cong (tell_field f c) g
            ∙ sym (>>=_assoc (tell_field f c) (tell_fields fs) (run settings fuel q)),
        record {
          state_kept = r.state_kept ∙ b.state_kept;
          method_kept = r.method_kept ∙ b.method_kept;
          major_kept = r.major_kept ∙ b.major_kept;
          minor_kept = r.minor_kept ∙ b.minor_kept;
          read_kept = r.read_kept ∙ b.read_kept;
          spelled = r.spelled;
          at_start = r.at_start;
          announced = r.announced ∙ ap (λ n. length_after n fs) b.announced;
        },
      )
