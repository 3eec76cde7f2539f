-- ===== src/Libc/Strings.antt =====
-- The string functions on C strings that hold a given text.
use librestserver.Libc.{Block, strlen, strcmp, text_of, digits_fuel, digits, print_int}
use librestserver.Prelude.{
  ℕ, zero, suc, ◌+◌, ◌/◌, ◌%◌, ◌≡◌, refl, sym, ap, ap₂, ◌∙◌, ◌≢◌, ◌↔◌, inl, inr, Bool, true, false,
  ◌&&◌, [], ◌∷◌, ◌++◌, arith, ltb, ◌==◌, Bool-cases, length, ok, ◌>>=◌, ℤ, pos, negsuc, sub_ℕ,
  is_zero,
}

-- No byte of a text is the terminator.
abbrev pub IsText : Block → Type 0
IsText [] = Unit
IsText (c ∷ s) = (c ≢ 0) × IsText s

pub strlen-text : (s r : Block) → IsText s → strlen (s ++ (0 ∷ r)) ≡ ok (length s)
unfolding strlen
strlen-text [] r h = refl
strlen-text (c ∷ s) r h = ground (arith, strlen-text s r h.1)

pub text_of-text : (s r : Block) → IsText s → text_of (s ++ (0 ∷ r)) ≡ ok s
unfolding text_of
text_of-text [] r h = refl
text_of-text (c ∷ s) r h = ground (arith, text_of-text s r h.1)

-- strcmp decides equality of the texts.
pub strcmp-text :
    (s t q r : Block)
    → IsText s
    → IsText t
    → (z : ℤ) × (strcmp (s ++ (0 ∷ q)) (t ++ (0 ∷ r)) ≡ ok z) × ((is_zero z ≡ true) ↔ (s ≡ t))
unfolding strcmp
strcmp-text [] [] q r h k = (pos 0, refl, ((λ _. refl), (λ _. refl)))
strcmp-text [] (b ∷ t) q r h k = (sub_ℕ 0 b, ground arith, (ground arith, ground arith))
strcmp-text (a ∷ s) [] q r h k = (sub_ℕ a 0, ground arith, (ground arith, ground arith))
strcmp-text (a ∷ s) (b ∷ t) q r h k =
    let (z, e, f) = strcmp-text s t q r h.1 k.1 in
    elim (Bool-cases (a == b)) [
      | inl same ↦ (z, ground arith, (ground (arith, f.0), ground (arith, f.1)))
      | inr differ ↦ (sub_ℕ a b, ground arith, (ground arith, ground arith))
    ]

-- Equality of texts as a test.
abbrev pub same_text : Block → Block → Bool
same_text [] [] = true
same_text [] (b ∷ t) = false
same_text (a ∷ s) [] = false
same_text (a ∷ s) (b ∷ t) = (a == b) && same_text s t

pub same_text-eq : (s t : Block) → same_text s t ≡ true → s ≡ t
same_text-eq [] [] h = refl
same_text-eq [] (b ∷ t) h = cc
same_text-eq (a ∷ s) [] h = cc
same_text-eq (a ∷ s) (b ∷ t) h = elim (Bool-cases (a == b)) [
  | inl hit ↦
      let first : a ≡ b = ground (arith, hit) in
      let rest : same_text s t ≡ true = rw hit at h in
      ap₂ (λ x r. x ∷ r) first (same_text-eq s t rest)
  | inr miss ↦ absurd (ground (arith, miss, h))
]

pub same_text_self : (s : Block) → same_text s s ≡ true
same_text_self [] = refl
same_text_self (a ∷ s) = ground (arith, same_text_self s)

-- strcmp as this test.
pub is_zero-strcmp :
    (s t q r : Block)
    → IsText s
    → IsText t
    → (strcmp (s ++ (0 ∷ q)) (t ++ (0 ∷ r)) >>= λ z. ok (is_zero z)) ≡ ok (same_text s t)
is_zero-strcmp s t q r h k =
    let (z, e, f) = strcmp-text s t q r h k in
    rw e (
      ap ok (elim (Bool-cases (same_text s t)) [
        | inl same ↦ f.1 (same_text-eq s t same) ∙ sym same
        | inr differ ↦ elim (Bool-cases (is_zero z)) [
          | inl zero_z ↦
              absurd (ground (arith, differ, same_text_self s, ap (same_text s) (f.0 zero_z)))
          | inr other ↦ other ∙ sym differ
        ]
      ]))

pub IsText-append : (s t : Block) → IsText s → IsText t → IsText (s ++ t)
IsText-append [] t h k = k
IsText-append (c ∷ s) t h k = (h.0, IsText-append s t h.1 k)

digits_fuel-IsText : (f n : ℕ) → IsText (digits_fuel f n)
unfolding digits_fuel
digits_fuel-IsText zero n = tt
digits_fuel-IsText (suc f) n = elim (Bool-cases (ltb n 10)) [
  | inl small ↦ rw small (some_digit n, tt)
  | inr large ↦ rw large (
      IsText-append (digits_fuel f (n / 10)) ((b'0' + n % 10) ∷ []) (digits_fuel-IsText f (n / 10))
        (some_digit (n % 10), tt))
]
  where
    some_digit : (d : ℕ) → (b'0' + d) ≢ 0
    some_digit d e = omega (arith, e)

-- What sprintf prints for an int has no terminator in it.
pub print_int-IsText : (x : ℤ) → IsText (print_int x)
unfolding print_int digits
print_int-IsText (pos n) = digits_fuel-IsText (suc n) n
print_int-IsText (negsuc n) = ((λ e. omega (arith, e)), digits_fuel-IsText (suc (suc n)) (suc n))
