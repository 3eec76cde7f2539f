-- ===== src/Tests/Memory.antt =====
-- The allocator and the JSON parser at small inputs.
use librestserver.Pool.{Pool, garbagepool_alloc, garbagepool_free, pool_size}
use librestserver.Pool.Blocks.{Laid, NotIn, garbagepool_alloc-Laid, garbagepool_free-twice}
use librestserver.Json.{json_parse}
use librestserver.Json.Strings.{json_parse-string}
use librestserver.Prelude.{ℕ, ◌+◌, ◌≤◌, ◌≡◌, refl, true, false, none, [], ◌∷◌, assertion, ok, err}

-- A pool at the address 1000 with two blocks.
abbrev pool : Pool
pool = record {
  buf = λ i. 0;
  allocations =
      record { address = 1004; size = 3; is_free = false }
      ∷ record { address = 1011; size = 5; is_free = false }
      ∷ [];
  free_buf_ptr = 20;
}

garbagepool_alloc-Laid_example :
    (q : Pool) × (memory : ℕ) × (garbagepool_alloc 1000 pool 2 ≡ ok (q, memory))
    × Laid 1000 4 q.allocations q.free_buf_ptr
    × NotIn 1000 memory (memory + 2) pool.allocations
    × (1000 + 4 ≤ memory)
    × (memory + 2 + 4 ≤ 1000 + pool_size)
garbagepool_alloc-Laid_example = garbagepool_alloc-Laid 1000 pool 2 (refl, (refl, refl)) refl refl

abbrev pool_freed : Pool
pool_freed = record pool {
  allocations =
      record { address = 1004; size = 3; is_free = true }
      ∷ record { address = 1011; size = 5; is_free = false }
      ∷ [];
}

garbagepool_free-twice_example : garbagepool_free 1000 pool_freed 1004 ≡ err assertion
garbagepool_free-twice_example =
    garbagepool_free-twice 1000 pool 1004 (unfold garbagepool_free in refl)

json_parse-string_example :
    json_parse {D = ℕ} (λ p. ok (p, none)) (λ p. ok (p, none)) (b'"' ∷ b'a' ∷ b'"' ∷ []) 3 ≡ ok none
json_parse-string_example =
    json_parse-string (λ p. ok (p, none)) (λ p. ok (p, none)) b'a' (b'"' ∷ []) refl
