-- ===== src/Libc.antt =====
-- What the program uses of the C standard library, on blocks of memory: <string.h>, the decimal
-- conversions of sprintf and sscanf, and isdigit. A `char *` is the block that starts at it. Every
-- read beyond the end of a block is a fault.
pub mod Strings
pub mod Bytes
pub mod Decimal
use librestserver.Prelude.{
  ℕ, zero, suc, ◌+◌, ◌-◌, ◌*◌, ◌/◌, ◌%◌, Bool, true, false, ◌&&◌, ◌||◌, Option, none, some, List,
  [], ◌∷◌, ◌++◌, ltb, leb, ◌==◌, if◌then◌else◌, length, get_elem?, take, drop, out_of_bounds,
  Result, ok, err, ◌>>=◌, ◌>>◌, from_option, ℤ, pos, negsuc, sub_ℕ,
}
use Prim.Native.Char.{code}
use Prim.Native.String.{String}

abbrev pub Block : Type 0
Block = List ℕ

-- A literal of the source, without its terminator (all are ASCII).
abbrev pub codes : String → Block
codes String.[] = []
codes (String.◌∷◌ c s) = code c ∷ codes s

-- A literal as it lies in memory.
abbrev pub literal : String → Block
literal s = codes s ++ (0 ∷ [])

-- `*(at + i)`
unfoldable pub read_byte : Block → ℕ → Result ℕ
read_byte b i = from_option (get_elem? b i) out_of_bounds

-- The `n` bytes at `at + off`, the source of a memcpy.
unfoldable pub read_bytes : Block → ℕ → ℕ → Result Block
read_bytes b off n =
    if leb (off + n) (length b) then ok (take n (drop off b)) else err out_of_bounds

-- The pointer `at + off`, as the block that starts there (one past the end is allowed).
unfoldable pub offset : Block → ℕ → Result Block
offset b off = if leb off (length b) then ok (drop off b) else err out_of_bounds

unfoldable pub strlen : Block → Result ℕ
strlen [] = err out_of_bounds
strlen (c ∷ s) = if c == 0 then ok 0 else (strlen s >>= λ n. ok (suc n))

-- The difference of the first two bytes that differ.
unfoldable pub strcmp : Block → Block → Result ℤ
strcmp [] t = err out_of_bounds
strcmp (a ∷ s) [] = err out_of_bounds
strcmp (a ∷ s) (b ∷ t) =
    if a == b then (if a == 0 then ok (pos 0) else strcmp s t) else ok (sub_ℕ a b)

unfoldable pub strncmp : Block → Block → ℕ → Result ℤ
strncmp s t zero = ok (pos 0)
strncmp [] t (suc n) = err out_of_bounds
strncmp (a ∷ s) [] (suc n) = err out_of_bounds
strncmp (a ∷ s) (b ∷ t) (suc n) =
    if a == b then (if a == 0 then ok (pos 0) else strncmp s t n) else ok (sub_ℕ a b)

-- The offset of the first `c` among the first `n` bytes.
unfoldable pub memchr : Block → ℕ → ℕ → Result (Option ℕ)
memchr s c zero = ok none
memchr [] c (suc n) = err out_of_bounds
memchr (a ∷ s) c (suc n) =
    if a == c
    then ok (some 0)
    else (memchr s c n >>= λ o. ok (elim o [ none ↦ none | some k ↦ some (suc k) ]))

-- The text of a C string: its bytes up to the terminator.
unfoldable pub text_of : Block → Result Block
text_of [] = err out_of_bounds
text_of (c ∷ s) = if c == 0 then ok [] else (text_of s >>= λ t. ok (c ∷ t))

-- Whether the second text stands at the start of the first.
unfoldable pub starts_with : Block → Block → Bool
starts_with s [] = true
starts_with [] (b ∷ t) = false
starts_with (a ∷ s) (b ∷ t) = a == b && starts_with s t

-- The first place where `needle` stands in `hay`, on texts. (The source calls strstr on C strings.)
unfoldable pub find_text : Block → Block → Option ℕ
find_text [] needle = if starts_with [] needle then some 0 else none
find_text (a ∷ hay) needle =
    if starts_with (a ∷ hay) needle
    then some 0
    else elim (find_text hay needle) [ none ↦ none | some k ↦ some (suc k) ]

unfoldable pub strstr : Block → Block → Result (Option ℕ)
unfolding text_of find_text
strstr hay needle = do h ← text_of hay; t ← text_of needle; ok (find_text h t)

unfoldable pub is_digit : ℕ → Bool
is_digit c = leb b'0' c && leb c b'9'

-- The decimal digits of a number, most significant first. A number has fewer digits than its
-- value plus one, the fuel given.
unfoldable pub digits_fuel : ℕ → ℕ → Block
digits_fuel zero n = []
digits_fuel (suc f) n =
    let more = digits_fuel f (n / 10) in
    if ltb n 10 then (b'0' + n) ∷ [] else more ++ ((b'0' + n % 10) ∷ [])

unfoldable pub digits : ℕ → Block
unfolding digits_fuel
digits n = digits_fuel (suc n) n

-- sprintf(buf, "%d", x), without the terminator
unfoldable pub print_int : ℤ → Block
unfolding digits
print_int (pos n) = digits n
print_int (negsuc n) = b'-' ∷ digits (suc n)

-- The number that the leading digits spell, after `acc`; `seen` says that there was one.
unfoldable pub scan_digits : Bool → ℕ → Block → Option ℕ
unfolding is_digit
scan_digits seen acc [] = if seen then some acc else none
scan_digits seen acc (c ∷ s) =
    if is_digit c
    then scan_digits true (acc * 10 + (c - b'0')) s
    else if seen
    then some acc
    else none

abbrev pub is_space : ℕ → Bool
is_space c = c == b' ' || (leb 9 c && leb c 13)

-- sscanf(s, "%lld", &x) on the text `s`, for values that a `long long` holds: blanks, a sign, and
-- digits; `none` where no number is read and `x` keeps its value.
unfoldable pub scan_signed : Block → Option ℤ
unfolding scan_digits
scan_signed [] = none
scan_signed (c ∷ s) =
    if c == b'-'
    then elim (scan_digits false 0 s) [ none ↦ none | some n ↦ some (sub_ℕ 0 n) ]
    else if c == b'+'
    then elim (scan_digits false 0 s) [ none ↦ none | some n ↦ some (pos n) ]
    else elim (scan_digits false 0 (c ∷ s)) [ none ↦ none | some n ↦ some (pos n) ]

unfoldable pub scan_int : Block → Option ℤ
unfolding scan_signed
scan_int [] = none
scan_int (c ∷ s) = if is_space c then scan_int s else scan_signed (c ∷ s)
