-- ===== src/Util/StringBuilder.antt =====
-- The C strings of librestserver/rstutil.c and RST_String_builder.
pub mod Laws
use librestserver.Libc.{Block, read_bytes, offset, strlen, print_int, literal}
use librestserver.Util.Num.{CString}
use librestserver.Prelude.{
  ℕ, ◌+◌, ◌-◌, Option, none, some, [], ◌∷◌, ◌++◌, leb, if◌then◌else◌, length, take, drop, replicate,
  out_of_bounds, Result, ok, err, ℤ, ◌>>=◌,
}

-- RST_alloc_string_n: a copy of the first `n` bytes, with a terminator behind them.
unfoldable pub alloc_string_n : Block → ℕ → Result Block
unfolding read_bytes
alloc_string_n src n = do s ← read_bytes src 0 n; ok (s ++ (0 ∷ []))

unfoldable pub alloc_string : Block → Result Block
unfolding strlen alloc_string_n
alloc_string src = do n ← strlen src; alloc_string_n src n

pub record StringBuilder : Type 0 where
  pub buf : Block
  pub len : ℕ

unfoldable pub init : Result StringBuilder
unfolding alloc_string
init = do buf ← alloc_string (literal ""); ok (record { buf = buf; len = 0 })

unfoldable pub init_with_n : Block → ℕ → Result StringBuilder
unfolding alloc_string_n
init_with_n str len = do buf ← alloc_string_n str len; ok (record { buf = buf; len = len })

unfoldable pub init_with : Block → Result StringBuilder
unfolding strlen init_with_n
init_with str = do n ← strlen str; init_with_n str n

unfoldable pub slice_inplace : StringBuilder → ℕ → ℕ → Result StringBuilder
unfolding offset alloc_string_n
slice_inplace sb from len = do
  src ← offset sb.buf from
  buf ← alloc_string_n src len
  ok (record { buf = buf; len = len })

-- The block after a realloc to `size` bytes: the old bytes, and new ones, which the allocator's
-- pool holds as zeros until they are written.
unfoldable pub resize : Block → ℕ → Block
resize b size = take size b ++ replicate (size - length b) 0

-- A memcpy into the block at `off`, and a store of one byte.
unfoldable pub write_bytes : Block → ℕ → Block → Result Block
write_bytes b off s =
    if leb (off + length s) (length b)
    then ok (take off b ++ (s ++ drop (off + length s) b))
    else err out_of_bounds

unfoldable pub append_n : StringBuilder → Block → ℕ → Result StringBuilder
unfolding read_bytes write_bytes resize
append_n sb str n = do
  let buf = resize sb.buf (sb.len + n + 1)
  s ← read_bytes str 0 n
  copied ← write_bytes buf sb.len s
  ended ← write_bytes copied (sb.len + n) (0 ∷ [])
  ok (record { buf = ended; len = sb.len + n })

-- A null pointer appends nothing.
unfoldable pub append : StringBuilder → CString → Result StringBuilder
unfolding strlen append_n
append sb none = ok sb
append sb (some str) = do n ← strlen str; append_n sb str n

-- sprintf into `char buf[50]`, which holds every int.
unfoldable pub append_int : StringBuilder → ℤ → Result StringBuilder
unfolding append print_int
append_int sb x = append sb (some (print_int x ++ (0 ∷ [])))

unfoldable pub append_char : StringBuilder → ℕ → Result StringBuilder
unfolding append_n
append_char sb c = append_n sb (c ∷ []) 1

unfoldable pub append_builder : StringBuilder → Option StringBuilder → Result StringBuilder
unfolding append_n
append_builder sb none = ok sb
append_builder sb (some sb2) = append_n sb sb2.buf sb2.len

-- The buffer outlives the builder.
unfoldable pub move_data : StringBuilder → Block
move_data sb = sb.buf
