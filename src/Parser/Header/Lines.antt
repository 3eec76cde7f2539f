-- ===== src/Parser/Header/Lines.antt =====
-- What a line of the header is to the owner of the parser.
use librestserver.Libc.{Block, read_bytes, codes}
use librestserver.Libc.Bytes.{Lacks, read_byte-append, read_bytes-append, pass_byte}
use librestserver.Parser.State.{Settings}
use librestserver.Libc.Strings.{IsText, same_text}
use librestserver.Parser.Header.Names.{names_content_length-text}
use librestserver.Parser.Header.{names_content_length, scan_from, fresh_scan}
use librestserver.Parser.Header.Laws.{
  started, waiting, start_step, scan_from-Lacks, scan_from-blanks, colon_step,
}
use librestserver.Prelude.{
  fun_ext, ℕ, suc, ◌+◌, ◌-◌, ◌≡◌, refl, sym, ap, ap₂, ◌∙◌, Bool, true, false, ◌||◌, [], ◌∷◌, ◌++◌,
  append_assoc, arith, ◌==◌, length, replicate, length-append, length-replicate, ok, ◌>>=◌,
}

-- A text without a colon that does not start with a blank.
abbrev pub IsShown : Block → Type 0
IsShown [] = Unit
IsShown (b ∷ text) = ((b == b' ') ≡ false) × Lacks b':' (b ∷ text)

-- The rest of the line behind the name.
abbrev pub behind_name : ℕ → Block → Block → Block
behind_name m value post = b':' ∷ (replicate m b' ' ++ (value ++ post))

module _ {C : Type 0} (settings : Settings C) where
  -- The rounds of a name and its colon.
  scan_name :
      (a : ℕ) (name post : Block) (n : ℕ) (c : C) (b : Bool)
      → IsShown (a ∷ name)
      → names_content_length ((a ∷ name) ++ (b':' ∷ post)) 0 (length (a ∷ name)) ≡ ok b
      → scan_from settings (suc (length name + suc n)) ((a ∷ name) ++ (b':' ∷ post)) fresh_scan 0 c
        ≡ (settings.on_header_field (a ∷ name) c >>= λ d.
            scan_from settings n
              ((a ∷ name) ++ (b':' ∷ post))
              (waiting true (b || false))
              (length (a ∷ name) + 1)
              d)
  scan_name a name post n c b shown is_length =
      let all = (a ∷ name) ++ (b':' ∷ post) in
      let i : 1 + length name ≡ length (a ∷ name) = omega arith in
      let size : length (a ∷ name) ≡ length (a ∷ name) - 0 = omega arith in
      start_step settings (length name + suc n) a all false false 0 c
        (read_byte-append [] a (name ++ (b':' ∷ post))) shown.1.0 shown.0
      ∙ scan_from-Lacks settings (a ∷ []) name (b':' ∷ post) (suc n) 0 false false c shown.1.1
      ∙ ap (λ i. scan_from settings (suc n) all (started 0 false false) i c) i
      ∙ colon_step settings n all 0 (length (a ∷ name)) c (a ∷ name) b
          (read_byte-append (a ∷ name) b':' post)
          (ap (λ l. read_bytes all 0 l) (sym size) ∙ read_bytes-append [] (a ∷ name) (b':' ∷ post))
          is_length

  -- The rounds of the blanks and the bytes of a value that stands behind `pre`.
  scan_value :
      (pre : Block) (m v : ℕ) (value post : Block) (n : ℕ) (l : Bool) (c : C)
      → IsShown (v ∷ value)
      → scan_from settings
          (m + suc (length value + n))
          (pre ++ (replicate m b' ' ++ ((v ∷ value) ++ post)))
          (waiting true l)
          (length pre)
          c
        ≡ scan_from settings n
            (pre ++ (replicate m b' ' ++ ((v ∷ value) ++ post)))
            (started (length pre + m) true l)
            (length pre + m + length (v ∷ value))
            c
  scan_value pre m v value post n l c shown =
      let rest = value ++ post in
      let front = pre ++ replicate m b' ' in
      let e : pre ++ (replicate m b' ' ++ (v ∷ rest)) ≡ front ++ (v ∷ rest) =
        sym (append_assoc pre (replicate m b' ') (v ∷ rest)) in
      let k : length pre + m ≡ length front =
        omega (arith, length-append pre (replicate m b' '), length-replicate {A = ℕ} m b' ') in
      let (e2, q) = pass_byte front v rest in
      let place : length (front ++ (v ∷ [])) + length value ≡ length front + length (v ∷ value) =
        omega (arith, q) in
      scan_from-blanks settings pre (v ∷ rest) m (suc (length value + n)) true l c
      ∙ ap₂ (λ a i. scan_from settings (suc (length value + n)) a (waiting true l) i c) e k
      ∙ start_step settings (length value + n) v (front ++ (v ∷ rest)) true l (length front) c
          (read_byte-append front v rest) shown.1.0 shown.0
      ∙ ap₂ (λ a i. scan_from settings (length value + n) a (started (length front) true l) i c) e2
          q
      ∙ scan_from-Lacks settings (front ++ (v ∷ [])) value post n (length front) true l c shown.1.1
      ∙ ap₂ (λ a i. scan_from settings n a (started (length front) true l) i c) (sym e2) place
      ∙ ap₂ (λ a i. scan_from settings n a (started i true l) (i + length (v ∷ value)) c) (sym e)
          (sym k)

  -- The loop over a whole line.
  pub scan_line :
      (a : ℕ) (name : Block) (m v : ℕ) (value post : Block) (n : ℕ) (c : C)
      → IsShown (a ∷ name)
      → IsText (a ∷ name)
      → IsShown (v ∷ value)
      → scan_from settings
          (suc (length name + suc (m + suc (length value + n))))
          ((a ∷ name) ++ behind_name m (v ∷ value) post)
          fresh_scan
          0
          c
        ≡ (settings.on_header_field (a ∷ name) c >>= λ d.
            scan_from settings n
              ((a ∷ name) ++ behind_name m (v ∷ value) post)
              (started
                (length (a ∷ name) + 1 + m)
                true
                (same_text (a ∷ name) (codes "Content-Length")))
              (length (a ∷ name) + 1 + m + length (v ∷ value))
              d)
  scan_line a name m v value post n c shown text shown_value =
      let rest = replicate m b' ' ++ ((v ∷ value) ++ post) in
      let all = (a ∷ name) ++ (b':' ∷ rest) in
      let b = same_text (a ∷ name) (codes "Content-Length") in
      let pre = (a ∷ name) ++ (b':' ∷ []) in
      let (e, k) = pass_byte (a ∷ name) b':' rest in
      let count = suc (length value + n) in
      let same : (b || false) ≡ b = or_false b in
      scan_name a name rest (m + count) c b shown
        (names_content_length-text (a ∷ name) (b':' ∷ rest) text)
      ∙ ap (λ f. settings.on_header_field (a ∷ name) c >>= f)
          (fun_ext (λ d.
            ap (λ l. scan_from settings (m + count) all (waiting true l) (length (a ∷ name) + 1) d)
              same
            ∙ ap₂ (λ q i. scan_from settings (m + count) q (waiting true b) i d) e k
            ∙ scan_value pre m v value post n b d shown_value
            ∙ ap₂
                (λ q i.
                  scan_from settings n q (started (i + m) true b) (i + m + length (v ∷ value)) d)
                (sym e) (sym k)))
    where
      or_false : (b : Bool) → (b || false) ≡ b
      or_false true = refl
      or_false false = refl
