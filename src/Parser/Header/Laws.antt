-- ===== src/Parser/Header/Laws.antt =====
-- The loop of RST_requestparser_header over a name, over blanks and over a value.
use librestserver.Libc.{Block, read_byte, read_bytes}
use librestserver.Libc.Bytes.{Lacks, read_byte-append, pass_byte}
use librestserver.Parser.State.{Settings}
use librestserver.Parser.Header.{
  Scan, note_start, names_content_length, scan_byte, scan_from, finish_field,
}
use librestserver.Prelude.{
  ℕ, zero, suc, ◌+◌, ◌-◌, ◌≡◌, refl, sym, ap, ap₂, ◌∙◌, Bool, true, false, ◌||◌, Option, none, some,
  [], ◌∷◌, ◌++◌, arith, ◌==◌, length, replicate, Result, ok, err, ◌>>=◌,
}

-- The variables of the loop with a start, and without one.
abbrev pub started : ℕ → Bool → Bool → Scan
started k finished is_length = record {
  field_finished = finished;
  start_from = some k;
  is_content_length = is_length;
}

abbrev pub waiting : Bool → Bool → Scan
waiting finished is_length = record {
  field_finished = finished;
  start_from = none;
  is_content_length = is_length;
}

-- What the round of the colon ends with.
abbrev field_done : {C : Type 0} → Bool → C → Option (Scan × C)
field_done b d = some (waiting true (b || false), d)

module _ {C : Type 0} (settings : Settings C) where
  quiet_step :
      (n b : ℕ) (at : Block) (s : Scan) (i : ℕ) (c : C)
      → read_byte at i ≡ ok b
      → (b == b':') ≡ false
      → scan_from settings (suc n) at s i c ≡ scan_from settings n at (note_start s i b) (i + 1) c
  unfolding scan_from scan_byte
  quiet_step n b at s i c e quiet = rw e (rw quiet refl)

  -- The byte that a name or a value starts with.
  pub start_step :
      (n b : ℕ) (at : Block) (finished is_length : Bool) (i : ℕ) (c : C)
      → read_byte at i ≡ ok b
      → (b == b':') ≡ false
      → (b == b' ') ≡ false
      → scan_from settings (suc n) at (waiting finished is_length) i c
        ≡ scan_from settings n at (started i finished is_length) (i + 1) c
  start_step n b at finished is_length i c e quiet visible =
      quiet_step n b at (waiting finished is_length) i c e quiet
      ∙ ap (λ s. scan_from settings n at s (i + 1) c) (go visible)
    where
      go :
          (b == b' ') ≡ false
          → note_start (waiting finished is_length) i b ≡ started i finished is_length
      go visible = rw visible refl

  -- The bytes behind it.
  pub scan_from-Lacks :
      (pre text post : Block) (n k : ℕ) (finished is_length : Bool) (c : C)
      → Lacks b':' text
      → scan_from settings
          (length text + n)
          (pre ++ (text ++ post))
          (started k finished is_length)
          (length pre)
          c
        ≡ scan_from settings n
            (pre ++ (text ++ post))
            (started k finished is_length)
            (length pre + length text)
            c
  scan_from-Lacks pre [] post n k finished is_length c h =
      ap₂ (λ a b. scan_from settings a (pre ++ post) (started k finished is_length) b c)
        (omega arith) (omega arith)
  scan_from-Lacks pre (b ∷ text) post n k finished is_length c h =
      let all = pre ++ ((b ∷ text) ++ post) in
      let s = started k finished is_length in
      let (e, q) = pass_byte pre b (text ++ post) in
      let count : length (b ∷ text) + n ≡ suc (length text + n) = omega arith in
      let place : length (pre ++ (b ∷ [])) + length text ≡ length pre + length (b ∷ text) =
        omega (arith, q) in
      ap (λ m. scan_from settings m all s (length pre) c) count
      ∙ quiet_step (length text + n) b all s (length pre) c (read_byte-append pre b (text ++ post))
          h.0
      ∙ ap₂ (λ a i. scan_from settings (length text + n) a s i c) e q
      ∙ scan_from-Lacks (pre ++ (b ∷ [])) text post n k finished is_length c h.1
      ∙ ap₂ (λ a i. scan_from settings n a s i c) (sym e) place

  -- Blanks in front of a name or a value.
  pub scan_from-blanks :
      (pre post : Block) (m n : ℕ) (finished is_length : Bool) (c : C)
      → scan_from settings
          (m + n)
          (pre ++ (replicate m b' ' ++ post))
          (waiting finished is_length)
          (length pre)
          c
        ≡ scan_from settings n
            (pre ++ (replicate m b' ' ++ post))
            (waiting finished is_length)
            (length pre + m)
            c
  scan_from-blanks pre post zero n finished is_length c =
      ap₂ (λ a b. scan_from settings a (pre ++ post) (waiting finished is_length) b c) (omega arith)
        (omega arith)
  scan_from-blanks pre post (suc m) n finished is_length c =
      let rest = replicate m b' ' ++ post in
      let all = pre ++ (b' ' ∷ rest) in
      let s = waiting finished is_length in
      let (e, q) = pass_byte pre b' ' rest in
      let count : suc m + n ≡ suc (m + n) = omega arith in
      let place : length (pre ++ (b' ' ∷ [])) + m ≡ length pre + suc m = omega (arith, q) in
      ap (λ l. scan_from settings l all s (length pre) c) count
      ∙ quiet_step (m + n) b' ' all s (length pre) c (read_byte-append pre b' ' rest) refl
      ∙ ap₂ (λ a i. scan_from settings (m + n) a s i c) e q
      ∙ scan_from-blanks (pre ++ (b' ' ∷ [])) post m n finished is_length c
      ∙ ap₂ (λ a i. scan_from settings n a s i c) (sym e) place

  -- The colon behind a name.
  pub colon_step :
      (n : ℕ) (at : Block) (k i : ℕ) (c : C) (name : Block) (b : Bool)
      → read_byte at i ≡ ok b':'
      → read_bytes at k (i - k) ≡ ok name
      → names_content_length at k i ≡ ok b
      → scan_from settings (suc n) at (started k false false) i c ≡ (
          settings.on_header_field name c >>= λ d.
          scan_from settings n at (waiting true (b || false)) (i + 1) d)
  unfolding scan_from scan_byte finish_field
  colon_step n at k i c name b here text is_length =
      rw here (rw text (rw is_length (go (settings.on_header_field name c))))
    where
      go :
          (r : Result C)
          → ((r >>= λ d. ok (field_done b d)) >>= (λ x. elim x [
            | none ↦ ok (c, none)
            | some (t, d) ↦ scan_from settings n at t (i + 1) d
          ]))
            ≡ (r >>= λ d. scan_from settings n at (waiting true (b || false)) (i + 1) d)
      go (ok d) = refl
      go (err e) = refl

  -- A colon in a value ends the loop with the return of 0.
  pub second_colon_step :
      (n : ℕ) (at : Block) (k i : ℕ) (is_length : Bool) (c : C)
      → read_byte at i ≡ ok b':'
      → scan_from settings (suc n) at (started k true is_length) i c ≡ ok (c, none)
  unfolding scan_from scan_byte finish_field
  second_colon_step n at k i is_length c here = rw here refl
