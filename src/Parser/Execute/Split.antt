-- ===== src/Parser/Execute/Split.antt =====
-- A request in two packets, cut inside a line of its header.
use librestserver.Libc.{Block}
use librestserver.Libc.Bytes.{Lacks}
use librestserver.Util.StringBuilder.Laws.{Spells, append_n-all}
use librestserver.Parser.State.{Parser, Settings, Method, header, finished}
use librestserver.Parser.Execute.{done, header_round, run, execute}
use librestserver.Parser.Execute.Chain.{round-header}
use librestserver.Parser.Execute.Stuck.{follow, run_step}
use librestserver.Parser.Execute.Body.{delivered}
use librestserver.Parser.Execute.Headers.{
  Field, AllFields, field_line, fields_text, length_after, tell_fields, run_fields,
}
use librestserver.Parser.Execute.Message.{body_rounds, tell_rest, run_header}
use librestserver.Parser.Execute.Rounds.{line_end, go_until_eq-partial}
use librestserver.Parser.Execute.Steps.{line_of}
use librestserver.Parser.Execute.Request.{IsFresh, IsLine, Opened, execute_opening}
use librestserver.Prelude.{
  subst, ℕ, suc, ◌+◌, ◌-◌, ◌^◌, ◌<◌, ◌≡◌, refl, sym, ap, ◌∙◌, false, List, [], ◌∷◌, ◌++◌,
  append_assoc, arith, ◌==◌, length, length-append, Result, ok, ◌>>=◌, >>=_assoc, >>=_cong,
}

length_after-append :
    (n : ℕ) (fs gs : List Field) → length_after n (fs ++ gs) ≡ length_after (length_after n fs) gs
length_after-append n [] gs = refl
length_after-append n (f ∷ fs) gs = length_after-append (length_after n (f ∷ [])) fs gs

fields_text-append :
    (fs gs : List Field) → fields_text (fs ++ gs) ≡ fields_text fs ++ fields_text gs
fields_text-append [] gs = refl
fields_text-append (f ∷ fs) gs =
    ap (λ l. field_line f ++ (line_end ++ l)) (fields_text-append fs gs)
    ∙ sym (append_assoc (field_line f) (line_end ++ fields_text fs) (fields_text gs))

AllFields-parts : (fs gs : List Field) → AllFields (fs ++ gs) → AllFields fs × AllFields gs
AllFields-parts [] gs h = (tt, h)
AllFields-parts (f ∷ fs) gs h = let (p, q) = AllFields-parts fs gs h.1 in ((h.0, p), q)

Lacks-front : (b : ℕ) (s t : Block) → Lacks b (s ++ t) → Lacks b s
Lacks-front b [] t h = tt
Lacks-front b (c ∷ s) t h = (h.0, Lacks-front b s t h.1)

-- Three steps in a row, and what follows them.
three_steps :
    {A B D E : Type 0} (b : Result A) (u : A → Result B) (t : B → Result D) (q : Parser)
    (k : Parser × D → Result E)
    → ((b >>= λ d. u d >>= λ e. t e >>= λ g. ok (q, g)) >>= k)
      ≡ (b >>= λ d. u d >>= λ e. t e >>= λ g. k (q, g))
three_steps b u t q k =
    >>=_assoc b (λ d. u d >>= λ e. t e >>= λ g. ok (q, g)) k
    ∙ >>=_cong b (λ d.
      >>=_assoc (u d) (λ e. t e >>= λ g. ok (q, g)) k
      ∙ >>=_cong (u d) (λ e. >>=_assoc (t e) (λ g. ok (q, g)) k))

module _ {C : Type 0} (settings : Settings C) where
  tell_fields-append :
      (fs gs : List Field) (c : C)
      → tell_fields settings (fs ++ gs) c ≡ (tell_fields settings fs c >>= tell_fields settings gs)
  tell_fields-append [] gs c = refl
  tell_fields-append (f ∷ fs) gs c =
      let told =
        settings.on_header_field (f.initial ∷ f.rest_of_name) c
        >>= settings.on_header_value (f.first ∷ f.rest_of_value) in
      >>=_cong told (tell_fields-append fs gs)
      ∙ sym (>>=_assoc told (tell_fields settings fs) (tell_fields settings gs))

  -- A line that is not there as a whole makes the call return.
  run_partial :
      (fuel : ℕ) (p : Parser) (part : Block) (c : C)
      → p.state ≡ header
      → Spells p.buf part
      → p.last_pos ≡ 0
      → Lacks 13 part
      → run settings (suc fuel) p c ≡ ok (p, c)
  run_partial fuel p part c in_header spelled first one_line =
      let waits : header_round settings p c ≡ ok (done p c) =
        unfold header_round in rw (go_until_eq-partial p part spelled first one_line) refl in
      run_step settings fuel p c
      ∙ ap (λ r. r >>= follow settings fuel) (round-header settings p c in_header ∙ waits)

  -- The call on the second packet.
  execute_second :
      (fuel : ℕ) (p : Parser) (part rest : Block) (f : Field) (fs : List Field) (bytes : Block)
      → p.state ≡ header
      → Spells p.buf part
      → p.last_pos ≡ 0
      → p.body_read ≡ 0
      → field_line f ≡ part ++ rest
      → AllFields (f ∷ fs)
      → length_after p.content_length (f ∷ fs) ≡ length bytes
      → length bytes < 2 ^ 31
      → (at_headers at_end : Parser) × ((c : C)
          → execute settings
              (length (f ∷ fs) + suc (body_rounds bytes fuel))
              p
              (rest ++ (line_end ++ (fields_text fs ++ (line_end ++ bytes))))
              (length (rest ++ (line_end ++ (fields_text fs ++ (line_end ++ bytes)))))
              c
            ≡ tell_rest settings (f ∷ fs) at_headers bytes at_end c)
        × (at_end.method ≡ p.method)
        × (at_end.http_major ≡ p.http_major)
        × (at_end.http_minor ≡ p.http_minor)
        × (at_end.body_read ≡ length bytes)
        × Spells at_end.buf bytes
  unfolding execute
  execute_second fuel p part rest f fs bytes in_header spelled first unread cut fields announced
        small =
      let behind = line_end ++ (fields_text fs ++ (line_end ++ bytes)) in
      let packet = rest ++ behind in
      let some_bytes : (length packet == 0) ≡ false = ground (arith, length-append rest behind) in
      let (out, appended, g) = append_n-all packet spelled in
      let whole : part ++ packet ≡ fields_text (f ∷ fs) ++ (line_end ++ bytes) =
        sym (append_assoc part rest behind)
        ∙ ap (λ l. l ++ behind) (sym cut)
        ∙ sym (append_assoc (field_line f) (line_end ++ fields_text fs) (line_end ++ bytes)) in
      let (at_headers, at_end, told, same_method, same_major, same_minor, read, left) =
        run_header settings fuel (record p { buf = out }) (f ∷ fs) bytes in_header
          (subst (λ l. Spells out l) whole g) first unread fields announced small in
      (
        at_headers,
        at_end,
        λ c. rw some_bytes (rw appended (told c)),
        same_method,
        same_major,
        same_minor,
        read,
        left,
      )

  -- The call on the first packet, which ends inside the line behind `fs`.
  execute_first :
      (fuel : ℕ) (p : Parser) (m : Method) (u : ℕ) (url : Block) (major minor : ℕ) (fs : List Field)
      (part : Block) (c : C)
      → IsFresh p
      → IsLine m (u ∷ url) major minor
      → AllFields fs
      → Lacks 13 part
      → (at_begin q : Parser) × (execute settings
            (suc (length fs + suc fuel))
            p
            (line_of m (u ∷ url) major minor ++ (line_end ++ (fields_text fs ++ part)))
            (length (line_of m (u ∷ url) major minor ++ (line_end ++ (fields_text fs ++ part))))
            c
          ≡ (settings.on_message_begin at_begin c >>= λ d.
              settings.on_url (u ∷ url) d >>= λ e. tell_fields settings fs e >>= λ g. ok (q, g)))
        × Opened q m major minor part (length_after p.content_length fs)
  execute_first fuel p m u url major minor fs part c fresh is_line fields one_line =
      let (at_begin, p1, opening, o) =
        execute_opening settings p m u url major minor (fields_text fs ++ part) c fresh is_line in
      let (q, told, b) =
        run_fields settings (suc fuel) p1 fs part o.in_header o.spelled o.at_start fields in
      (
        at_begin,
        q,
        opening (length fs + suc fuel)
            ∙ >>=_cong (settings.on_message_begin at_begin c) (λ d.
              >>=_cong (settings.on_url (u ∷ url) d) (λ e.
                told e
                ∙ >>=_cong (tell_fields settings fs e) (λ g.
                  run_partial fuel q part g (b.state_kept ∙ o.in_header) b.spelled b.at_start
                    one_line))),
        record {
          in_header = b.state_kept ∙ o.in_header;
          spelled = b.spelled;
          at_start = b.at_start;
          unread = b.read_kept ∙ o.unread;
          announced = b.announced ∙ ap (λ n. length_after n fs) o.announced;
          method_read = b.method_kept ∙ o.method_read;
          major_read = b.major_kept ∙ o.major_read;
          minor_read = b.minor_kept ∙ o.minor_read;
        },
      )

  -- A request in two packets, cut anywhere inside a line of its header: the two calls together tell
  -- the owner exactly what one call with the whole request does. The lines of the header are a
  -- name, a colon, blanks and a value, where name and value are not empty, start with no blank,
  -- have no colon and no carriage return, and the name has no zero byte.
  pub execute_split :
      (fuel fuel2 : ℕ) (p : Parser) (m : Method) (u : ℕ) (url : Block) (major minor : ℕ)
      (fs gs : List Field) (f : Field) (part rest bytes : Block) (c : C)
      → IsFresh p
      → IsLine m (u ∷ url) major minor
      → AllFields (fs ++ (f ∷ gs))
      → field_line f ≡ part ++ rest
      → length_after p.content_length (fs ++ (f ∷ gs)) ≡ length bytes
      → length bytes < 2 ^ 31
      → (at_begin at_headers at_end : Parser) × ((execute settings
              (suc (length fs + suc fuel))
              p
              (line_of m (u ∷ url) major minor ++ (line_end ++ (fields_text fs ++ part)))
              (length (line_of m (u ∷ url) major minor ++ (line_end ++ (fields_text fs ++ part))))
              c
            >>= λ (r : Parser × C).
                execute settings
                  (length (f ∷ gs) + suc (body_rounds bytes fuel2))
                  r.0
                  (rest ++ (line_end ++ (fields_text gs ++ (line_end ++ bytes))))
                  (length (rest ++ (line_end ++ (fields_text gs ++ (line_end ++ bytes)))))
                  r.1)
          ≡ (settings.on_message_begin at_begin c >>= λ d. settings.on_url (u ∷ url) d >>= λ e.
              tell_fields settings (fs ++ (f ∷ gs)) e >>= λ g.
              settings.on_headers_complete at_headers g >>= λ h. delivered settings bytes h >>= λ i.
              settings.on_message_complete at_end i >>= λ j.
              ok (record at_end { state = finished }, j)))
        × (at_end.method ≡ m)
        × (at_end.http_major ≡ major - b'0')
        × (at_end.http_minor ≡ minor - b'0')
        × (at_end.body_read ≡ length bytes)
        × Spells at_end.buf bytes
  execute_split fuel fuel2 p m u url major minor fs gs f part rest bytes c fresh is_line fields cut
        announced small =
      let (before, after) = AllFields-parts fs (f ∷ gs) fields in
      let one_line = Lacks-front 13 part rest (subst (λ l. Lacks 13 l) cut after.0.one_line) in
      let (at_begin, q, first, o) =
        execute_first fuel p m u url major minor fs part c fresh is_line before one_line in
      let total : length_after q.content_length (f ∷ gs) ≡ length bytes =
        ap (λ n. length_after n (f ∷ gs)) o.announced
        ∙ sym (length_after-append p.content_length fs (f ∷ gs))
        ∙ announced in
      let (at_headers, at_end, second, same_method, same_major, same_minor, read, left) =
        execute_second fuel2 q part rest f gs bytes o.in_header o.spelled o.at_start o.unread cut
          after total small in
      let begun = settings.on_message_begin at_begin c in
      let behind = rest ++ (line_end ++ (fields_text gs ++ (line_end ++ bytes))) in
      let next : Parser × C → Result (Parser × C) = λ r.
        execute settings (length (f ∷ gs) + suc (body_rounds bytes fuel2)) r.0 behind
          (length behind) r.1 in
      let last : C → Result (Parser × C) = λ g. settings.on_headers_complete at_headers g >>= λ h.
      delivered settings bytes h >>= λ i.
      settings.on_message_complete at_end i >>= λ j. ok (record at_end { state = finished }, j) in
      (
        at_begin,
        at_headers,
        at_end,
        ap (λ r. r >>= next) first
            ∙ three_steps begun (settings.on_url (u ∷ url)) (tell_fields settings fs) q next
            ∙ >>=_cong begun (λ d. >>=_cong (settings.on_url (u ∷ url) d) (λ e.
              >>=_cong (tell_fields settings fs e) second
              ∙ sym (>>=_assoc (tell_fields settings fs e) (tell_fields settings (f ∷ gs)) last)
              ∙ ap (λ r. r >>= last) (sym (tell_fields-append fs (f ∷ gs) e)))),
        same_method ∙ o.method_read,
        same_major ∙ o.major_read,
        same_minor ∙ o.minor_read,
        read,
        left,
      )
