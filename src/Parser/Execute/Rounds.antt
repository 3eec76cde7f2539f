-- ===== src/Parser/Execute/Rounds.antt =====
-- The rounds of the parse loop over whole lines.
use librestserver.Libc.{Block, literal, offset, strncmp}
use librestserver.Libc.Bytes.{Lacks, offset-append, pass_byte}
use librestserver.Util.StringBuilder.{StringBuilder}
use librestserver.Util.StringBuilder.Laws.{Spells, slice_inplace-Spells}
use librestserver.Parser.State.{Parser, go_from, go_until_eq}
use librestserver.Parser.Execute.{drop_line}
use librestserver.Prelude.{
  subst, ℕ, zero, suc, ◌+◌, ◌-◌, ◌^◌, ◌≤◌, ◌<◌, ◌≡◌, refl, sym, ap, ap₂, ◌∙◌, true, false, Option,
  none, some, [], ◌∷◌, ◌++◌, append_assoc, append-nil, arith, leb, ◌==◌, length, length-append,
  Result, ok, ◌>>=◌, pos, sub_ℕ, is_zero,
}

abbrev pub line_end : Block
line_end = 13 ∷ 10 ∷ []

go_from-stop :
    (fuel : ℕ) (buf : Block) (n cur : ℕ) (at : Block)
    → cur + 2 ≤ n
    → offset buf cur ≡ ok at
    → strncmp at (literal "\r\n") 2 ≡ ok (pos 0)
    → go_from (suc fuel) buf n (literal "\r\n") 2 cur ≡ ok (some cur)
unfolding go_from
go_from-stop fuel buf n cur at le e h =
    let inside : leb (cur + 2) n ≡ true = ground arith in
    ap
      (λ b. elim b as (λ x. Result (Option ℕ)) [
        | false ↦ ok none
        | true ↦ offset buf cur >>= (λ at. strncmp at (literal "\r\n") 2 >>= (λ z.
            elim (is_zero z) [
              | true ↦ ok (some cur)
              | false ↦ go_from fuel buf n (literal "\r\n") 2 (cur + 1)
            ]))
      ])
      inside
    ∙ rw e (rw h refl)

go_from-step :
    (fuel : ℕ) (buf : Block) (n cur c : ℕ) (s : Block)
    → cur + 2 ≤ n
    → offset buf cur ≡ ok (c ∷ s)
    → (c == 13) ≡ false
    → go_from (suc fuel) buf n (literal "\r\n") 2 cur
      ≡ go_from fuel buf n (literal "\r\n") 2 (cur + 1)
unfolding go_from strncmp
go_from-step fuel buf n cur c s le e h =
    let inside : leb (cur + 2) n ≡ true = ground arith in
    let other : is_zero (sub_ℕ c 13) ≡ false = ground (arith, h) in
    ap
      (λ b. elim b as (λ x. Result (Option ℕ)) [
        | false ↦ ok none
        | true ↦ offset buf cur >>= (λ at. strncmp at (literal "\r\n") 2 >>= (λ z.
            elim (is_zero z) [
              | true ↦ ok (some cur)
              | false ↦ go_from fuel buf n (literal "\r\n") 2 (cur + 1)
            ]))
      ])
      inside
    ∙ rw e (
        rw h (
          ap
            (λ b. elim b as (λ x. Result (Option ℕ)) [
              | true ↦ ok (some cur)
              | false ↦ go_from fuel buf n (literal "\r\n") 2 (cur + 1)
            ])
            other))

-- The search finds the end of the first line.
go_from-line :
    (fuel : ℕ) (pre line rest : Block) (n : ℕ)
    → Lacks 13 line
    → length pre + length line + 2 ≤ n
    → length line < fuel
    → go_from fuel (pre ++ (line ++ (13 ∷ 10 ∷ rest))) n (literal "\r\n") 2 (length pre)
      ≡ ok (some (length pre + length line))
go_from-line zero pre line rest n h le lt = absurd (omega arith)
go_from-line (suc fuel) pre [] rest n h le lt =
    let strncmp_end : strncmp (13 ∷ 10 ∷ rest) (literal "\r\n") 2 ≡ ok (pos 0) =
      unfold strncmp in refl in
    go_from-stop fuel (pre ++ (13 ∷ 10 ∷ rest)) n (length pre) (13 ∷ 10 ∷ rest) (omega arith)
      (offset-append pre (13 ∷ 10 ∷ rest)) strncmp_end
    ∙ ap (λ i. ok (some i)) (omega arith)
go_from-line (suc fuel) pre (c ∷ line) rest n h le lt =
    let all = pre ++ ((c ∷ line) ++ (13 ∷ 10 ∷ rest)) in
    let (e, k) = pass_byte pre c (line ++ (13 ∷ 10 ∷ rest)) in
    let place : length (pre ++ (c ∷ [])) + length line ≡ length pre + length (c ∷ line) =
      omega (arith, k) in
    go_from-step fuel all n (length pre) c (line ++ (13 ∷ 10 ∷ rest)) (omega arith)
      (offset-append pre (c ∷ (line ++ (13 ∷ 10 ∷ rest)))) h.0
    ∙ ap₂ (λ b i. go_from fuel b n (literal "\r\n") 2 i) e k
    ∙ go_from-line fuel (pre ++ (c ∷ [])) line rest n h.1 (omega (arith, k)) (omega arith)
    ∙ ap (λ i. ok (some i)) place

-- The parser has read nothing of its buffer, which starts with a whole line.
pub record AtLine (p : Parser) (line rest : Block) : Type 0 where
  pub contents : Spells p.buf (line ++ (line_end ++ rest))
  pub at_start : p.last_pos ≡ 0
  pub one_line : Lacks 13 line
  pub small : length line < 2 ^ 32

pub go_until_eq-AtLine :
    {p : Parser} {line rest : Block}
    → AtLine p line rest
    → go_until_eq p (literal "\r\n") ≡ ok (some (length line))
unfolding go_until_eq
go_until_eq-AtLine {p} {line} {rest} h =
    let whole : p.buf.buf ≡ line ++ (13 ∷ 10 ∷ (rest ++ (0 ∷ []))) =
      h.contents.exact ∙ append_assoc line (line_end ++ rest) (0 ∷ []) in
    let size : p.buf.len ≡ length line + 2 + length rest =
      omega (arith, h.contents.counted, length-append line (line_end ++ rest)) in
    ap₂ (λ b i. go_from (suc p.buf.len) b p.buf.len (literal "\r\n") 2 i) whole h.at_start
    ∙ go_from-line (suc p.buf.len) [] line (rest ++ (0 ∷ [])) p.buf.len h.one_line
        (omega (arith, size)) (omega (arith, size))
    ∙ ap (λ i. ok (some i)) (omega arith)

-- Dropping the line leaves the rest.
pub drop_line-AtLine :
    {p : Parser} {line rest : Block}
    → AtLine p line rest
    → (q : Parser) → q.buf ≡ p.buf
    → (out : StringBuilder) × (drop_line q (length line)
        ≡ ok (record q { buf = out; last_pos = 0 }))
      × Spells out rest
unfolding drop_line
drop_line-AtLine {p} {line} {rest} h q same =
    let split : line ++ (line_end ++ rest) ≡ (line ++ line_end) ++ (rest ++ []) =
      sym (append_assoc line line_end rest)
      ∙ ap (λ r. (line ++ line_end) ++ r) (sym (append-nil rest)) in
    let spelled : Spells q.buf ((line ++ line_end) ++ (rest ++ [])) =
      subst (λ b. Spells b ((line ++ line_end) ++ (rest ++ []))) (sym same)
        (subst (λ s. Spells p.buf s) split h.contents) in
    let (out, e, g) = slice_inplace-Spells (line ++ line_end) rest [] spelled in
    let from : length line + 2 ≡ length (line ++ line_end) =
      omega (arith, length-append line line_end) in
    let size : q.buf.len - length line - 2 ≡ length rest = omega (
      arith,
      spelled.counted,
      length-append (line ++ line_end) (rest ++ []),
      length-append rest [],
      length-append line line_end,
    ) in
    (out, rw (from) (rw (size) (rw e refl)), g)

go_from-short :
    (fuel : ℕ) (buf : Block) (n cur : ℕ)
    → n < cur + 2
    → go_from (suc fuel) buf n (literal "\r\n") 2 cur ≡ ok none
unfolding go_from
go_from-short fuel buf n cur lt =
    let outside : leb (cur + 2) n ≡ false = ground arith in
    ap
      (λ b. elim b as (λ x. Result (Option ℕ)) [
        | false ↦ ok none
        | true ↦ offset buf cur >>= (λ at. strncmp at (literal "\r\n") 2 >>= (λ z.
            elim (is_zero z) [
              | true ↦ ok (some cur)
              | false ↦ go_from fuel buf n (literal "\r\n") 2 (cur + 1)
            ]))
      ])
      outside

-- The search goes through a text that has no end of a line.
go_from-partial :
    (fuel : ℕ) (pre part rest : Block)
    → Lacks 13 part
    → length part < fuel
    → go_from fuel
        (pre ++ (part ++ rest))
        (length pre + length part)
        (literal "\r\n")
        2
        (length pre)
      ≡ ok none
go_from-partial zero pre part rest h lt = absurd (omega arith)
go_from-partial (suc fuel) pre [] rest h lt =
    go_from-short fuel (pre ++ rest) (length pre + 0) (length pre) (omega arith)
go_from-partial (suc fuel) pre (c ∷ []) rest h lt =
    go_from-short fuel (pre ++ (c ∷ rest)) (length pre + 1) (length pre) (omega arith)
go_from-partial (suc fuel) pre (c ∷ d ∷ part) rest h lt =
    let n = length pre + length (c ∷ d ∷ part) in
    let (e, k) = pass_byte pre c ((d ∷ part) ++ rest) in
    let total : n ≡ length (pre ++ (c ∷ [])) + length (d ∷ part) = omega (arith, k) in
    go_from-step fuel (pre ++ ((c ∷ d ∷ part) ++ rest)) n (length pre) c ((d ∷ part) ++ rest)
      (omega arith) (offset-append pre (c ∷ ((d ∷ part) ++ rest))) h.0
    ∙ ap₂ (λ b i. go_from fuel b n (literal "\r\n") 2 i) e k
    ∙ ap
        (λ l.
          go_from fuel ((pre ++ (c ∷ [])) ++ ((d ∷ part) ++ rest)) l (literal "\r\n") 2
            (length (pre ++ (c ∷ []))))
        total
    ∙ go_from-partial fuel (pre ++ (c ∷ [])) (d ∷ part) rest h.1 (omega arith)

pub go_until_eq-partial :
    (p : Parser) (part : Block)
    → Spells p.buf part
    → p.last_pos ≡ 0
    → Lacks 13 part
    → go_until_eq p (literal "\r\n") ≡ ok none
unfolding go_until_eq
go_until_eq-partial p part h first one_line =
    ap₂ (λ b i. go_from (suc p.buf.len) b p.buf.len (literal "\r\n") 2 i) h.exact first
    ∙ ap (λ n. go_from (suc n) (part ++ (0 ∷ [])) n (literal "\r\n") 2 0) (h.counted ∙ omega arith)
    ∙ go_from-partial (suc (0 + length part)) [] part (0 ∷ []) one_line (omega arith)
