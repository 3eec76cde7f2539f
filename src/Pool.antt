-- ===== src/Pool.antt =====
-- The allocator of librestserver/rstutil.c: a pool that is never reused, with four guard bytes
-- behind every block. RST_alloc, RST_realloc, RST_free and their `_tag` forms add log output and
-- the assertion that the pointer is one of the pool's.
pub mod Blocks
use librestserver.Libc.{Block}
use librestserver.Prelude.{
  ℕ, zero, suc, ◌+◌, ◌-◌, ◌*◌, Bool, true, false, ◌&&◌, not, Option, none, some, List, [], ◌∷◌,
  ◌++◌, ltb, leb, ◌==◌, if◌then◌else◌, length, get_elem?, out_of_bounds, assertion, Result, ok,
  ◌>>=◌, ◌>>◌, guard, from_option,
}

abbrev pub gfill : ℕ
gfill = b'Z'

-- sizeof(buf), and the length of the two shorter arrays of RST_GarbagePool
abbrev pub pool_size : ℕ
pool_size = 1024 * 1024 * 300

abbrev pub max_allocations : ℕ
max_allocations = 500000

-- One index of `allocations`, `allocations_sizes` and `allocations_is_free`.
pub record Allocation : Type 0 where
  pub address : ℕ
  pub size : ℕ
  pub is_free : Bool

-- `allocations_count` is the length of the list.
pub record Pool : Type 0 where
  pub buf : ℕ → ℕ
  pub allocations : List Allocation
  pub free_buf_ptr : ℕ

-- The bytes `s` stored from `at` on.
unfoldable pub store : (ℕ → ℕ) → ℕ → Block → ℕ → ℕ
store buf at [] i = buf i
store buf at (c ∷ s) i = if i == at then c else store buf (at + 1) s i

unfoldable pub load : (ℕ → ℕ) → ℕ → ℕ → Block
load buf at zero = []
load buf at (suc n) = buf at ∷ load buf (at + 1) n

abbrev pub guard_bytes : Block
guard_bytes = gfill ∷ gfill ∷ gfill ∷ gfill ∷ []

-- RST_debug_init
unfoldable pub debug_init : (ℕ → ℕ) → Pool
unfolding store
debug_init zeros = record { buf = store zeros 0 guard_bytes; allocations = []; free_buf_ptr = 4 }

unfoldable pub same_bytes : Block → Block → Bool
same_bytes [] t = true
same_bytes (a ∷ s) [] = false
same_bytes (a ∷ s) (b ∷ t) = a == b && same_bytes s t

-- The pool begins at the address `base`; a pointer is an address.
module _ (base : ℕ) where
  -- RST_garbagepool_check reads the guards at `allocations[i] + …`, which are addresses and not
  -- indices of `buf`.
  unfoldable pub check_all : (ℕ → ℕ) → List Allocation → Bool
  unfolding load same_bytes
  check_all buf [] = true
  check_all buf (a ∷ as') =
      same_bytes (load buf (a.address + a.size) 4) guard_bytes && check_all buf as'

  unfoldable pub check : Pool → Result (Unit {0})
  unfolding check_all load same_bytes
  check p = do
    guard (same_bytes (load p.buf 0 4) guard_bytes) assertion
    guard (check_all p.buf p.allocations) assertion

  unfoldable pub garbagepool_alloc : Pool → ℕ → Result (Pool × ℕ)
  unfolding store
  garbagepool_alloc p size = do
    guard (ltb (length p.allocations) max_allocations) out_of_bounds
    guard (leb (p.free_buf_ptr + size + 4) pool_size) out_of_bounds
    ok (
      record p {
        allocations =
            p.allocations
            ++ (record { address = base + p.free_buf_ptr; size = size; is_free = false } ∷ []);
        free_buf_ptr = p.free_buf_ptr + size + 4;
        buf = store p.buf (p.free_buf_ptr + size) guard_bytes;
      },
      base + p.free_buf_ptr,
    )

  -- The last index whose address is the pointer; the loop does not stop at the first.
  unfoldable pub find_last : List Allocation → ℕ → ℕ → Option ℕ → Option ℕ
  find_last [] memory i found = found
  find_last (a ∷ as') memory i found =
      find_last as' memory (i + 1) (if a.address == memory then some i else found)

  unfoldable pub assert_ptr_allocated : Pool → ℕ → Result ℕ
  unfolding find_last
  assert_ptr_allocated p memory = from_option (find_last p.allocations memory 0 none) assertion

  -- allocations_is_free[found] = 1
  unfoldable pub mark_free : List Allocation → ℕ → List Allocation
  mark_free [] i = []
  mark_free (a ∷ as') zero = record a { is_free = true } ∷ as'
  mark_free (a ∷ as') (suc i) = a ∷ mark_free as' i

  -- The memcpy copies the size of the old block, whatever the new size is.
  unfoldable pub copy_old : Pool → Allocation → ℕ → Pool
  unfolding store load
  copy_old p old memory = record p {
    buf = store p.buf (memory - base) (load p.buf (old.address - base) old.size);
  }

  unfoldable pub garbagepool_realloc : Pool → ℕ → ℕ → Result (Pool × ℕ)
  unfolding assert_ptr_allocated garbagepool_alloc copy_old mark_free
  garbagepool_realloc p memory size = do
    found ← assert_ptr_allocated p memory
    r ← garbagepool_alloc p size
    old ← from_option (get_elem? p.allocations found) out_of_bounds
    let q = copy_old r.0 old r.1
    ok (record q { allocations = mark_free q.allocations found }, r.1)

  unfoldable pub garbagepool_free : Pool → ℕ → Result Pool
  unfolding find_last mark_free
  garbagepool_free p memory = do
    found ← from_option (find_last p.allocations memory 0 none) assertion
    a ← from_option (get_elem? p.allocations found) assertion
    guard (not a.is_free) assertion
    ok (record p { allocations = mark_free p.allocations found })

  -- RST_alloc and RST_alloc_tag
  unfoldable pub alloc : Pool → ℕ → Result (Pool × ℕ)
  unfolding garbagepool_alloc
  alloc p size = garbagepool_alloc p size

  -- RST_realloc and RST_realloc_tag
  unfoldable pub realloc : Pool → ℕ → ℕ → Result (Pool × ℕ)
  unfolding assert_ptr_allocated garbagepool_realloc
  realloc p memory size = do
    found ← assert_ptr_allocated p memory
    garbagepool_realloc p memory size

  -- RST_free and RST_free_tag
  unfoldable pub free : Pool → ℕ → Result Pool
  unfolding assert_ptr_allocated garbagepool_free
  free p memory = do found ← assert_ptr_allocated p memory; garbagepool_free p memory
