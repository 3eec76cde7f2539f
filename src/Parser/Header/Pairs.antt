-- ===== src/Parser/Header/Pairs.antt =====
-- What a line of the header is to the owner of the parser.
use librestserver.Libc.{Block, read_bytes, read_byte, codes}
use librestserver.Libc.Bytes.{read_bytes-append, read_byte-inside}
use librestserver.Parser.State.{Parser, Settings}
use librestserver.Parser.Header.Lines.{IsShown, behind_name, scan_line}
use librestserver.Libc.Strings.{IsText, same_text}
use librestserver.Parser.Header.{
  Scan, scan_from, finish_value, fresh_scan, scan_length, header_line,
}
use librestserver.Parser.Header.Laws.{started, second_colon_step}
use librestserver.Prelude.{
  fun_ext, ℕ, suc, ◌+◌, ◌-◌, ◌≡◌, refl, sym, ap, ap₂, ◌∙◌, Bool, true, false, Option, none, some,
  [], ◌∷◌, ◌++◌, append_assoc, arith, ◌==◌, if◌then◌else◌, length, replicate, length-append,
  length-replicate, Result, ok, err, ◌>>=◌,
}

-- What the line adds to the parser.
abbrev pub with_length : Parser → Block → Block → Parser
with_length p name value =
    if same_text name (codes "Content-Length")
    then record p { content_length = scan_length p.content_length value }
    else p

-- The results of a line that passes: of its last part, and of the whole function.
abbrev passed : {C : Type 0} → Parser → Bool → Block → C → Parser × C × Bool
passed p b value e =
    (if b then record p { content_length = scan_length p.content_length value } else p, e, true)

abbrev line_passed : {C : Type 0} → Parser → Bool → Block → C → Parser × C × Bool × Bool
line_passed p b value e = (
  if b then record p { content_length = scan_length p.content_length value } else p,
  e,
  true,
  false,
)

abbrev line_result : {C : Type 0} → Parser × C × Bool → Parser × C × Bool × Bool
line_result t = (t.0, t.1, t.2, false)

module _ {C : Type 0} (settings : Settings C) where
  scan_end :
      (at : Block) (s : Scan) (i : ℕ) (c : C) → scan_from settings 0 at s i c ≡ ok (c, some s)
  unfolding scan_from
  scan_end at s i c = refl

  -- What follows the loop where a value was found.
  finish_value-started :
      (p : Parser) (at : Block) (len k : ℕ) (l : Bool) (c : C) (value : Block)
      → read_bytes at k (len - k) ≡ ok value
      → finish_value settings p at len c (some (started k true l)) ≡ (
          settings.on_header_value value c >>= λ d. ok (
            if l then record p { content_length = scan_length p.content_length value } else p,
            d,
            true,
          ))
  unfolding finish_value
  finish_value-started p at len k l c value e = rw e refl

  -- What the loop and what the function leave.
  abbrev end_of : Bool → ℕ → C → C × Option Scan
  end_of b k d = (d, some (started k true b))

  -- The rest of the function, once the name was handed over.
  field_then :
      (p : Parser) (all : Block) (len : ℕ) (b : Bool) (k : ℕ) (value : Block)
      → ((d : C)
          → finish_value settings p all len d (some (started k true b))
            ≡ (settings.on_header_value value d >>= λ e. ok (passed p b value e)))
      → (r : Result C)
      → ((r >>= λ d. ok (end_of b k d)) >>= λ (s : C × Option Scan).
          finish_value settings p all len s.0 s.1 >>= λ (t : Parser × C × Bool). ok (line_result t))
        ≡ (r >>= λ d. settings.on_header_value value d >>= λ e. ok (line_passed p b value e))
  field_then p all len b k value h (err e) = refl
  field_then p all len b k value h (ok d) = rw (h d) (go (settings.on_header_value value d))
    where
      go :
          (r : Result C)
          → ((r >>= λ e. ok (passed p b value e)) >>= λ (t : Parser × C × Bool). ok (line_result t))
            ≡ (r >>= λ e. ok (line_passed p b value e))
      go (ok e) = refl
      go (err e) = refl

  -- A line `name: value`, with any number of blanks and no other colon: the owner gets the name and
  -- then the value, and the line passes. The value of Content-Length is also read as a number.
  pub header_line_pair :
      (p : Parser) (a : ℕ) (name : Block) (m v : ℕ) (value post : Block) (c : C)
      → IsShown (a ∷ name)
      → IsText (a ∷ name)
      → IsShown (v ∷ value)
      → header_line settings p
          ((a ∷ name) ++ behind_name m (v ∷ value) post)
          (suc (length name + suc (m + suc (length value))))
          c
        ≡ (settings.on_header_field (a ∷ name) c >>= λ d.
            settings.on_header_value (v ∷ value) d >>= λ e.
            ok (with_length p (a ∷ name) (v ∷ value), e, true, false))
  unfolding header_line
  header_line_pair p a name m v value post c shown text shown_value =
      let all = (a ∷ name) ++ behind_name m (v ∷ value) post in
      let len = suc (length name + suc (m + suc (length value))) in
      let b = same_text (a ∷ name) (codes "Content-Length") in
      let k = length (a ∷ name) + 1 + m in
      let some_bytes : (len == 0) ≡ false = ground arith in
      let count : len ≡ suc (length name + suc (m + suc (length value + 0))) = omega arith in
      let scanned : scan_from settings len all fresh_scan 0 c
          ≡ (settings.on_header_field (a ∷ name) c >>= λ d. ok (end_of b k d)) =
        ap (λ n. scan_from settings n all fresh_scan 0 c) count
        ∙ scan_line settings a name m v value post 0 c shown text shown_value
        ∙ ap (λ f. settings.on_header_field (a ∷ name) c >>= f)
            (fun_ext (λ d. scan_end all (started k true b) (k + length (v ∷ value)) d)) in
      let pre = ((a ∷ name) ++ (b':' ∷ [])) ++ replicate m b' ' in
      let split : all ≡ pre ++ ((v ∷ value) ++ post) =
        sym (append_assoc (a ∷ name) (b':' ∷ []) (replicate m b' ' ++ ((v ∷ value) ++ post)))
        ∙ sym (append_assoc ((a ∷ name) ++ (b':' ∷ [])) (replicate m b' ') ((v ∷ value) ++ post)) in
      let place : k ≡ length pre = omega (
        arith,
        length-append ((a ∷ name) ++ (b':' ∷ [])) (replicate m b' '),
        length-append (a ∷ name) (b':' ∷ []),
        length-replicate {A = ℕ} m b' ',
      ) in
      let size : len - k ≡ length (v ∷ value) = omega arith in
      let value_read : read_bytes all k (len - k) ≡ ok (v ∷ value) =
        ap (λ n. read_bytes all k n) size
        ∙ ap₂ (λ q i. read_bytes q i (length (v ∷ value))) split place
        ∙ read_bytes-append pre (v ∷ value) post in
      rw some_bytes (
        rw scanned (
          field_then p all len b k (v ∷ value)
            (λ d. finish_value-started p all len k b d (v ∷ value) value_read)
            (settings.on_header_field (a ∷ name) c)))

  -- A line with a second colon behind the first byte of its value, as in `Host: localhost:8080`: the
  -- owner gets the name but no value, and the line does not pass.
  pub header_line_second_colon :
      (p : Parser) (a : ℕ) (name : Block) (m v : ℕ) (value post : Block) (n : ℕ) (c : C)
      → IsShown (a ∷ name)
      → IsText (a ∷ name)
      → IsShown (v ∷ value)
      → header_line settings p
          ((a ∷ name) ++ behind_name m (v ∷ value) (b':' ∷ post))
          (suc (length name + suc (m + suc (length value + suc n))))
          c
        ≡ (settings.on_header_field (a ∷ name) c >>= λ d. ok (p, d, false, false))
  unfolding header_line
  header_line_second_colon p a name m v value post n c shown text shown_value =
      let all = (a ∷ name) ++ behind_name m (v ∷ value) (b':' ∷ post) in
      let len = suc (length name + suc (m + suc (length value + suc n))) in
      let b = same_text (a ∷ name) (codes "Content-Length") in
      let front = ((a ∷ name) ++ (b':' ∷ [])) ++ replicate m b' ' in
      let i = length (a ∷ name) + 1 + m + length (v ∷ value) in
      let some_bytes : (len == 0) ≡ false = ground arith in
      let split : all ≡ front ++ ((v ∷ value) ++ (b':' ∷ post)) =
        sym
          (append_assoc (a ∷ name) (b':' ∷ []) (replicate m b' ' ++ ((v ∷ value) ++ (b':' ∷ post))))
        ∙ sym (
            append_assoc ((a ∷ name) ++ (b':' ∷ [])) (replicate m b' ')
              ((v ∷ value) ++ (b':' ∷ post))) in
      let place : i ≡ length front + length (v ∷ value) = omega (
        arith,
        length-append ((a ∷ name) ++ (b':' ∷ [])) (replicate m b' '),
        length-append (a ∷ name) (b':' ∷ []),
        length-replicate {A = ℕ} m b' ',
      ) in
      let here : read_byte all i ≡ ok b':' =
        ap₂ read_byte split place ∙ read_byte-inside front (v ∷ value) b':' post in
      let scanned : scan_from settings len all fresh_scan 0 c
          ≡ (settings.on_header_field (a ∷ name) c >>= λ d. ok (no_end d)) =
        scan_line settings a name m v value (b':' ∷ post) (suc n) c shown text shown_value
        ∙ ap (λ f. settings.on_header_field (a ∷ name) c >>= f)
            (fun_ext
              (λ d. second_colon_step settings n all (length (a ∷ name) + 1 + m) i b d here)) in
      rw some_bytes (rw scanned (go all len (settings.on_header_field (a ∷ name) c)))
    where
      no_end : C → C × Option Scan
      no_end d = (d, none)

      go :
          (all : Block) (len : ℕ) (r : Result C)
          → ((r >>= λ d. ok (no_end d)) >>= λ (s : C × Option Scan).
              finish_value settings p all len s.0 s.1 >>= λ (t : Parser × C × Bool).
              ok (line_result t))
            ≡ (r >>= λ d. ok (p, d, false, false))
      go all len (ok d) = refl
      go all len (err e) = refl
