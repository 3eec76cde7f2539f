-- ===== src/Parser/Header/Length.antt =====
-- A line of the header that announces a length in decimal digits.
use librestserver.Libc.{Block, codes, is_digit, digits, scan_int}
use librestserver.Libc.Strings.{IsText, print_int-IsText}
use librestserver.Libc.Decimal.{
  tens, length-digits, print_int-digits, scan_int-digits, digits-first, digits-Lacks,
}
use librestserver.Parser.State.{Parser, Settings}
use librestserver.Parser.Header.{up_to_nul, scan_length, header_line}
use librestserver.Parser.Header.Lines.{IsShown, behind_name}
use librestserver.Parser.Header.Pairs.{with_length, header_line_pair}
use librestserver.Libc.Bytes.{Lacks}
use librestserver.Prelude.{
  subst, ℕ, suc, ◌+◌, ◌<◌, ◌≡◌, refl, sym, ap, ◌∙◌, true, false, none, some, [], ◌∷◌, ◌++◌, arith,
  length, take, take_all, ok, ◌>>=◌, pos, to_unsigned,
}

up_to_nul-text : (s : Block) → IsText s → up_to_nul s ≡ s
unfolding up_to_nul
up_to_nul-text [] h = refl
up_to_nul-text (c ∷ s) h = ground (arith, up_to_nul-text s)

digits-IsText : (n : ℕ) → IsText (digits n)
digits-IsText n = subst IsText (print_int-digits n) (print_int-IsText (pos n))

-- The field is wide enough for fifteen digits.
pub scan_length-digits : (old n : ℕ) → n < tens 15 → scan_length old (digits n) ≡ n
unfolding scan_length
scan_length-digits old n h =
    let whole : up_to_nul (take 15 (digits n)) ≡ digits n =
      ap up_to_nul (take_all 15 (digits n) (length-digits 14 n h))
      ∙ up_to_nul-text (digits n) (digits-IsText n) in
    ap
      (λ s. elim (scan_int (s ++ (b' ' ∷ []))) as (λ o. ℕ) [
        | none ↦ old
        | some m ↦ to_unsigned 64 m
      ])
      whole
    ∙ ap (λ o. elim o as (λ x. ℕ) [ none ↦ old | some m ↦ to_unsigned 64 m ])
        (scan_int-digits n b' ' [] (unfold is_digit in refl))
    ∙ omega arith

digits-IsShown : (n : ℕ) → IsShown (digits n)
digits-IsShown n =
    let (d, s, lt, e) = digits-first n in
    subst IsShown (sym e)
      (ground arith, subst (λ l. Lacks b':' l) e (digits-Lacks b':' n (unfold is_digit in refl)))

module _ {C : Type 0} (settings : Settings C) where
  header_line-length :
      (p : Parser) (v : ℕ) (value post : Block) (c : C)
      → IsShown (v ∷ value)
      → header_line settings p
          (codes "Content-Length" ++ behind_name 1 (v ∷ value) post)
          (16 + length (v ∷ value))
          c
        ≡ (settings.on_header_field (codes "Content-Length") c >>= λ d.
            settings.on_header_value (v ∷ value) d >>= λ e.
            ok (with_length p (codes "Content-Length") (v ∷ value), e, true, false))
  header_line-length p v value post c shown =
      let size : 16 + length (v ∷ value)
          ≡ suc (length (codes "ontent-Length") + suc (1 + suc (length value))) =
        omega arith in
      ap
        (λ n. header_line settings p (codes "Content-Length" ++ behind_name 1 (v ∷ value) post) n c)
        size
      ∙ header_line_pair settings p b'C' (codes "ontent-Length") 1 v value post c (ground arith)
          (omega arith) shown

  -- The line `Content-Length: n`: the owner gets the name and the digits, and the parser the number.
  pub header_line-digits :
      (p : Parser) (n : ℕ) (post : Block) (c : C)
      → n < tens 15
      → header_line settings p
          (codes "Content-Length" ++ behind_name 1 (digits n) post)
          (16 + length (digits n))
          c
        ≡ (settings.on_header_field (codes "Content-Length") c >>= λ d.
            settings.on_header_value (digits n) d >>= λ e.
            ok (record p { content_length = n }, e, true, false))
  header_line-digits p n post c h =
      let (d, s, lt, e) = digits-first n in
      let shown : IsShown ((b'0' + d) ∷ s) = subst IsShown e (digits-IsShown n) in
      let read =
        subst
          (λ (w : Block).
            header_line settings p (codes "Content-Length" ++ behind_name 1 w post) (16 + length w)
              c
            ≡ (settings.on_header_field (codes "Content-Length") c >>= λ d.
                settings.on_header_value w d >>= λ e.
                ok (with_length p (codes "Content-Length") w, e, true, false)))
          (sym e) (header_line-length p (b'0' + d) s post c shown) in
      read
      ∙ ap
          (λ m. settings.on_header_field (codes "Content-Length") c >>= λ d.
            settings.on_header_value (digits n) d >>= λ e. ok (content_of p m, e, true, false))
          (scan_length-digits p.content_length n h)
    where
      content_of : Parser → ℕ → Parser
      content_of p m = record p { content_length = m }
