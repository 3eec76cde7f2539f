-- ===== src/Util/Num.antt =====
-- The numeric helpers and the comparators of librestserver/rstutil.c.
use librestserver.Libc.{Block, strcmp}
use librestserver.Prelude.{
  ℕ, ◌+◌, ◌-◌, ◌%◌, ◌^◌, ◌<◌, ◌≡◌, refl, ◌↔◌, Bool, true, Option, none, some, arith, ◌==◌,
  if◌then◌else◌, ==_iff, null_pointer, Result, ok, err, ℤ, is_zero, is_positive, ltb_ℤ, to_int,
}

unfoldable pub max_int : ℤ → ℤ → ℤ
max_int a b = if ltb_ℤ b a then a else b

unfoldable pub min_int : ℤ → ℤ → ℤ
min_int a b = if ltb_ℤ a b then a else b

-- A `void *` that carries a number is a 32-bit word, and `(int)a - (int)b` wraps.
unfoldable pub int_comparator : ℕ → ℕ → Result ℤ
int_comparator a b = ok (to_int (a % 2 ^ 32 + 2 ^ 32 - b % 2 ^ 32))

-- A `char *` that may be null.
abbrev pub CString : Type 0
CString = Option Block

unfoldable pub cstr_comparator : CString → CString → Result ℤ
cstr_comparator none b = err null_pointer
cstr_comparator (some s) none = err null_pointer
cstr_comparator (some s) (some t) = strcmp s t

-- A comparator as the containers use it, on the values that they may hold: it returns, and it
-- returns zero exactly when `eq` says that the two are equal.
pub record Compares {A : Type 0} (cmp : A → A → Result ℤ) (eq : A → A → Bool) (Held : A → Type 0)
    : Type 0 where
  pub returns : (a b : A) → Held a → Held b → (z : ℤ) × (cmp a b ≡ ok z) × (is_zero z ≡ eq a b)
  pub equal_iff : (a b : A) → Held a → Held b → (eq a b ≡ true) ↔ (a ≡ b)

abbrev pub IsWord : ℕ → Type 0
IsWord w = w < 2 ^ 32

-- The words of two ints are equal exactly where the comparator returns zero, wrapping included.
pub int_comparator-Compares : Compares int_comparator ◌==◌ IsWord
unfolding int_comparator
int_comparator-Compares = record {
  returns = λ a b h k. (to_int (a % 2 ^ 32 + 2 ^ 32 - b % 2 ^ 32), refl, ground arith);
  equal_iff = λ a b h k. ==_iff a b;
}

-- For two ints that are not negative, such as sockets, the comparator is positive exactly where the
-- first is greater.
pub int_comparator_sign :
    (a b : ℕ)
    → a < 2 ^ 31
    → b < 2 ^ 31
    → (z : ℤ) × (int_comparator a b ≡ ok z) × ((is_positive z ≡ true) ↔ (b < a))
unfolding int_comparator
int_comparator_sign a b h k =
    (to_int (a % 2 ^ 32 + 2 ^ 32 - b % 2 ^ 32), refl, (ground arith, ground arith))
