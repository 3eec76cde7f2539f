-- ===== src/Libc/Decimal.antt =====
-- Decimal numbers: what sprintf prints, sscanf reads back.
use librestserver.Libc.Bytes.{Lacks}
use librestserver.Libc.{
  Block, is_digit, is_space, digits_fuel, digits, print_int, scan_digits, scan_signed, scan_int,
}
use librestserver.Prelude.{
  ℕ, zero, suc, ◌+◌, ◌-◌, ◌*◌, ◌/◌, ◌%◌, ◌≤◌, ◌<◌, ◌≡◌, refl, sym, ap, ◌∙◌, inl, inr, Bool, true,
  false, Option, none, some, [], ◌∷◌, ◌++◌, append_assoc, arith, ltb, ◌==◌, Bool-cases, length,
  length-append, ℤ, pos,
}

-- The powers of ten, by recursion.
abbrev pub tens : ℕ → ℕ
tens zero = 1
tens (suc k) = 10 * tens k

-- A number below 10 ^ k, with k at least one, has at most k digits.
length-digits_fuel : (f k n : ℕ) → n < tens (suc k) → length (digits_fuel f n) ≤ suc k
unfolding digits_fuel
length-digits_fuel zero k n h = omega arith
length-digits_fuel (suc f) zero n h = ground arith
length-digits_fuel (suc f) (suc k) n h = ground (
  arith,
  length-append (digits_fuel f (n / 10)) ((b'0' + n % 10) ∷ []),
  length-digits_fuel f k (n / 10),
)

pub length-digits : (k n : ℕ) → n < tens (suc k) → length (digits n) ≤ suc k
unfolding digits
length-digits k n h = length-digits_fuel (suc n) k n h

digit_byte : (d : ℕ) → d < 10 → is_digit (b'0' + d) ≡ true
unfolding is_digit
digit_byte d h = ground arith

digit_step :
    (seen : Bool) (acc d : ℕ) (r : Block)
    → d < 10
    → scan_digits seen acc ((b'0' + d) ∷ r) ≡ scan_digits true (acc * 10 + d) r
unfolding scan_digits
digit_step seen acc d r h =
    let value : acc * 10 + (b'0' + d - b'0') ≡ acc * 10 + d = omega arith in
    rw (digit_byte d h) (ap (λ m. scan_digits true m r) value)

-- The digits of a number, read from nothing, leave the number.
scan_digits-digits_fuel :
    (f n : ℕ) (seen : Bool) (r : Block)
    → n < f
    → scan_digits seen 0 (digits_fuel f n ++ r) ≡ scan_digits true n r
unfolding digits_fuel
scan_digits-digits_fuel zero n seen r h = absurd (omega arith)
scan_digits-digits_fuel (suc f) n seen r h = elim (Bool-cases (ltb n 10)) [
  | inl small ↦
      rw small (digit_step seen 0 n r (ground arith) ∙ ap (λ m. scan_digits true m r) (omega arith))
  | inr large ↦
      let split = append_assoc (digits_fuel f (n / 10)) ((b'0' + n % 10) ∷ []) r in
      let whole : n / 10 * 10 + n % 10 ≡ n = omega arith in
      rw large (
        ap (scan_digits seen 0) split
        ∙ scan_digits-digits_fuel f (n / 10) seen ((b'0' + n % 10) ∷ r) (ground arith)
        ∙ digit_step true (n / 10) (n % 10) r (omega arith)
        ∙ ap (λ m. scan_digits true m r) whole)
]

-- The first digit.
digits_fuel-first :
    (f n : ℕ) → n < f → (d : ℕ) × (s : Block) × (d < 10) × (digits_fuel f n ≡ (b'0' + d) ∷ s)
unfolding digits_fuel
digits_fuel-first zero n h = absurd (omega arith)
digits_fuel-first (suc f) n h = elim (Bool-cases (ltb n 10)) [
  | inl small ↦ (n, [], ground arith, rw small refl)
  | inr large ↦
      let (d, s, lt, e) = digits_fuel-first f (n / 10) (ground arith) in
      (d, s ++ ((b'0' + n % 10) ∷ []), lt, rw large (ap (λ l. l ++ ((b'0' + n % 10) ∷ [])) e))
]

scan_int-digit :
    (d : ℕ) (s : Block)
    → d < 10
    → scan_int ((b'0' + d) ∷ s) ≡ elim (scan_digits false 0 ((b'0' + d) ∷ s)) as (λ o. Option ℤ) [
      | none ↦ none
      | some n ↦ some (pos n)
    ]
unfolding scan_int scan_signed
scan_int-digit d s h =
    let no_space : is_space (b'0' + d) ≡ false = ground arith in
    let no_minus : (b'0' + d == b'-') ≡ false = ground arith in
    let no_plus : (b'0' + d == b'+') ≡ false = ground arith in
    rw no_space (rw no_minus (rw no_plus refl))

pub print_int-digits : (n : ℕ) → print_int (pos n) ≡ digits n
unfolding print_int
print_int-digits n = refl

-- sscanf("%lld") reads what sprintf("%d") printed, up to the first byte that is no digit.
pub scan_int-digits :
    (n b : ℕ) (r : Block) → is_digit b ≡ false → scan_int (digits n ++ (b ∷ r)) ≡ some (pos n)
unfolding digits
scan_int-digits n b r h =
    let (d, s, lt, e) = digits_fuel-first (suc n) n (omega arith) in
    let scanned : scan_digits false 0 (digits_fuel (suc n) n ++ (b ∷ r)) ≡ some n =
      scan_digits-digits_fuel (suc n) n false (b ∷ r) (omega arith) ∙ scan_stop n b r h in
    let first : digits_fuel (suc n) n ++ (b ∷ r) ≡ (b'0' + d) ∷ (s ++ (b ∷ r)) =
      ap (λ l. l ++ (b ∷ r)) e in
    ap scan_int first
    ∙ scan_int-digit d (s ++ (b ∷ r)) lt
    ∙ ap (λ o. elim o as (λ x. Option ℤ) [ none ↦ none | some m ↦ some (pos m) ])
        (ap (scan_digits false 0) (sym first) ∙ scanned)
  where
    scan_stop : (n b : ℕ) (r : Block) → is_digit b ≡ false → scan_digits true n (b ∷ r) ≡ some n
    scan_stop n b r h = unfold scan_digits in rw h refl

Lacks-append : (b : ℕ) (s t : Block) → Lacks b s → Lacks b t → Lacks b (s ++ t)
Lacks-append b [] t h k = k
Lacks-append b (c ∷ s) t h k = (h.0, Lacks-append b s t h.1 k)

digit_differs : (b d : ℕ) → is_digit b ≡ false → d < 10 → (b'0' + d == b) ≡ false
unfolding is_digit
digit_differs b d h lt = ground arith

digits_fuel-Lacks : (b f n : ℕ) → is_digit b ≡ false → Lacks b (digits_fuel f n)
unfolding digits_fuel
digits_fuel-Lacks b zero n h = tt
digits_fuel-Lacks b (suc f) n h = elim (Bool-cases (ltb n 10)) [
  | inl small ↦ rw small (digit_differs b n h (ground arith), tt)
  | inr large ↦ rw large (
      Lacks-append b (digits_fuel f (n / 10)) ((b'0' + n % 10) ∷ [])
        (digits_fuel-Lacks b f (n / 10) h) (digit_differs b (n % 10) h (omega arith), tt))
]

-- A printed number is a digit and more bytes, and holds no byte that is no digit.
pub digits-first : (n : ℕ) → (d : ℕ) × (s : Block) × (d < 10) × (digits n ≡ (b'0' + d) ∷ s)
unfolding digits
digits-first n = digits_fuel-first (suc n) n (omega arith)

pub digits-Lacks : (b n : ℕ) → is_digit b ≡ false → Lacks b (digits n)
unfolding digits
digits-Lacks b n h = digits_fuel-Lacks b (suc n) n h
