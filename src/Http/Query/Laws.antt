-- ===== src/Http/Query/Laws.antt =====
-- What the parser of query strings makes of one pair, and of two.
use librestserver.Libc.{Block, read_byte}
use librestserver.Libc.Bytes.{Lacks, read_byte-append, pass_byte, offset-append}
use librestserver.Util.Num.{CString}
use librestserver.Util.Map.{Table}
use librestserver.Util.Map
use librestserver.Util.StringBuilder.Laws.{alloc_string_n-take}
use librestserver.Http.Query.{
  Scan, piece, on_byte, on_equals, on_ampersand, count_byte, scan_from, finish, value_of, save_pair,
  again, returned,
}
use librestserver.Prelude.{
  ℕ, zero, suc, ◌+◌, ◌≡◌, refl, sym, ap, ap₂, ◌∙◌, true, false, none, some, [], ◌∷◌, ◌++◌, arith,
  ◌==◌, length, length-append, take-length-append, Result, ok, err, ◌>>=◌,
}

-- Neither of the two separators occurs.
abbrev pub IsPlain : Block → Type 0
IsPlain s = Lacks b'=' s × Lacks b'&' s

-- A text as the maps hold it.
abbrev pub held : Block → CString
held s = some (s ++ (0 ∷ []))

-- A byte that is no separator is counted.
scan_step :
    (n c : ℕ) (q : Block) (s : Scan) (i : ℕ)
    → read_byte q i ≡ ok c
    → (c == b'=') ≡ false
    → (c == b'&') ≡ false
    → scan_from (suc n) q s i ≡ scan_from n q (count_byte s) (i + 1)
unfolding scan_from on_byte
scan_step n c q s i e no_equals no_ampersand = rw e (rw (no_equals, no_ampersand) refl)

-- The loop counts the bytes that are no separators.
pub scan_from-IsPlain :
    (pre plain post : Block) (n : ℕ) (s : Scan)
    → IsPlain plain
    → scan_from (length plain + n) (pre ++ (plain ++ post)) s (length pre)
      ≡ scan_from n
          (pre ++ (plain ++ post))
          (record s { cur_len = s.cur_len + length plain })
          (length pre + length plain)
scan_from-IsPlain pre [] post n s h =
    let e : s.cur_len ≡ s.cur_len + 0 = omega arith in
    ap₂ (λ a b. scan_from a (pre ++ post) s b) (omega arith) (omega arith)
    ∙ ap (λ b. scan_from n (pre ++ post) (record s { cur_len = b }) (length pre + 0)) e
scan_from-IsPlain pre (c ∷ plain) post n s h =
    let all = pre ++ ((c ∷ plain) ++ post) in
    let (e, k) = pass_byte pre c (plain ++ post) in
    let count : length (c ∷ plain) + n ≡ suc (length plain + n) = omega arith in
    let sum : s.cur_len + 1 + length plain ≡ s.cur_len + length (c ∷ plain) = omega arith in
    let place : length (pre ++ (c ∷ [])) + length plain ≡ length pre + length (c ∷ plain) =
      omega (arith, k) in
    ap (λ m. scan_from m all s (length pre)) count
    ∙ scan_step (length plain + n) c all s (length pre) (read_byte-append pre c (plain ++ post))
        h.0.0 h.1.0
    ∙ ap₂ (λ b i. scan_from (length plain + n) b (count_byte s) i) e k
    ∙ scan_from-IsPlain (pre ++ (c ∷ [])) plain post n (count_byte s) (h.0.1, h.1.1)
    ∙ ap₂ (λ b i. scan_from n b (record s { cur_len = s.cur_len + 1 + length plain }) i) (sym e)
        place
    ∙ ap (λ m. scan_from n all (record s { cur_len = m }) (length pre + length (c ∷ plain))) sum

-- The piece that starts behind `pre`.
pub piece-append :
    (pre text post : Block) (s : Scan)
    → s.started_from ≡ length pre
    → s.cur_len ≡ length text
    → piece (pre ++ (text ++ post)) s ≡ ok (held text)
unfolding piece
piece-append pre text post s e k =
    rw (e, k)
      (rw (offset-append pre (text ++ post)) (
        rw
          (alloc_string_n-take (text ++ post) (length text)
            (omega (arith, length-append text post)))
          (rw (take-length-append text post))))

-- The variables while a key, and while a value is read.
abbrev pub at_key : Table CString → ℕ → ℕ → Scan
at_key params from len = record {
  current_is_value = false;
  started_from = from;
  cur_len = len;
  key = none;
  params = params;
}

abbrev pub at_value : Table CString → CString → ℕ → ℕ → Scan
at_value params key from len = record {
  current_is_value = true;
  started_from = from;
  cur_len = len;
  key = key;
  params = params;
}

-- The round of the '=' behind a key.
pub equals_step :
    (n : ℕ) (q : Block) (m : Table CString) (from len i : ℕ) (key : CString)
    → read_byte q i ≡ ok b'='
    → piece q (at_key m from len) ≡ ok key
    → scan_from (suc n) q (at_key m from len) i ≡ scan_from n q (at_value m key (i + 1) 0) (i + 1)
unfolding scan_from on_byte on_equals
equals_step n q m from len i key here text = rw here (rw text refl)

-- The round of the '&' behind a value: the next key starts with a length of 1.
pub ampersand_step :
    (n : ℕ) (q : Block) (m : Table CString) (key value : CString) (from len i : ℕ)
    → read_byte q i ≡ ok b'&'
    → piece q (at_value m key from len) ≡ ok value
    → scan_from (suc n) q (at_value m key from len) i
      ≡ (Map.insert m key value >>= λ m1. scan_from n q (at_key m1 (i + 1) 1) (i + 1))
unfolding scan_from on_byte on_ampersand save_pair value_of
ampersand_step n q m key value from len i here text =
    rw here (rw text (go (Map.insert m key value)))
  where
    go :
        (r : Result (Table CString))
        → ((r >>= λ params. ok (again (at_key params (i + 1) 1))) >>= (λ r. elim r [
          | returned t ↦ ok (t.params, false)
          | again t ↦ scan_from n q t (i + 1)
        ]))
          ≡ (r >>= λ m1. scan_from n q (at_key m1 (i + 1) 1) (i + 1))
    go (ok m1) = refl
    go (err e) = refl

-- A second '=' ends the parse: the returned flag is 0 and the pair is dropped.
pub second_equals_step :
    (n : ℕ) (q : Block) (m : Table CString) (key : CString) (from len i : ℕ)
    → read_byte q i ≡ ok b'='
    → scan_from (suc n) q (at_value m key from len) i ≡ ok (m, false)
unfolding scan_from on_byte on_equals
second_equals_step n q m key from len i here = rw here refl

-- The pair behind the loop.
pub finish_step :
    (q : Block) (m : Table CString) (key value : CString) (from len i : ℕ)
    → piece q (at_value m key from len) ≡ ok value
    → scan_from zero q (at_value m key from len) i
      ≡ (Map.insert m key value >>= λ m1. ok (m1, true))
unfolding scan_from finish save_pair value_of
finish_step q m key value from len i text = rw text refl
