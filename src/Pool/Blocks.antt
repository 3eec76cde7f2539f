-- ===== src/Pool/Blocks.antt =====
-- The blocks of the debugging allocator: they lie one behind the other, and none is freed twice.
use librestserver.Pool.{
  pool_size, max_allocations, Allocation, Pool, garbagepool_alloc, find_last, mark_free,
  garbagepool_free, store, guard_bytes,
}
use librestserver.Prelude.{
  ℕ, zero, suc, ◌+◌, ◌≤◌, ◌≡◌, refl, sym, ap, ◌∙◌, ◌⊎◌, inl, inr, Bool, true, false, not, Option,
  none, some, List, [], ◌∷◌, ◌++◌, arith, ltb, leb, ◌==◌, if◌then◌else◌, leb→le, Bool-cases, length,
  get_elem?, assertion, Result, ok, err, ◌>>=◌, ◌>>◌, guard, from_option,
}

module _ (base : ℕ) where
  -- The blocks stand from the index `at` on, four guard bytes behind each, and end at `stop`.
  abbrev pub Laid : ℕ → List Allocation → ℕ → Type 0
  Laid at [] stop = at ≡ stop
  Laid at (a ∷ blocks) stop = (a.address ≡ base + at) × Laid (at + a.size + 4) blocks stop

  Laid-append :
      (at : ℕ) (blocks : List Allocation) (stop size : ℕ)
      → Laid at blocks stop
      → Laid at
          (blocks ++ (record { address = base + stop; size = size; is_free = false } ∷ []))
          (stop + size + 4)
  Laid-append at [] stop size h = (ap (λ n. base + n) (sym h), ap (λ n. n + size + 4) h)
  Laid-append at (a ∷ blocks) stop size (e, h) =
      (e, Laid-append (at + a.size + 4) blocks stop size h)

  -- Every block begins behind what stands in front of it.
  abbrev pub NotIn : ℕ → ℕ → List Allocation → Type 0
  NotIn low high [] = Unit
  NotIn low high (a ∷ blocks) =
      ((a.address + a.size ≤ low) ⊎ (high ≤ a.address)) × NotIn low high blocks

  Laid-le : (at : ℕ) (blocks : List Allocation) (stop : ℕ) → Laid at blocks stop → at ≤ stop
  Laid-le at [] stop h = omega (arith, h)
  Laid-le at (a ∷ blocks) stop (e, h) =
      let le = Laid-le (at + a.size + 4) blocks stop h in omega (arith, le)

  Laid-NotIn :
      (at : ℕ) (blocks : List Allocation) (stop high : ℕ)
      → Laid at blocks stop
      → NotIn (base + stop) high blocks
  Laid-NotIn at [] stop high h = tt
  Laid-NotIn at (a ∷ blocks) stop high (e, h) =
      let le = Laid-le (at + a.size + 4) blocks stop h in
      (inl (omega (arith, e, le)), Laid-NotIn (at + a.size + 4) blocks stop high h)

  -- An allocation that fits gives a block of the size asked for, apart from every block that was
  -- given before, and keeps the blocks one behind the other.
  pub garbagepool_alloc-Laid :
      (p : Pool) (size : ℕ)
      → Laid 4 p.allocations p.free_buf_ptr
      → ltb (length p.allocations) max_allocations ≡ true
      → leb (p.free_buf_ptr + size + 4) pool_size ≡ true
      → (q : Pool) × (memory : ℕ) × (garbagepool_alloc base p size ≡ ok (q, memory))
        × Laid 4 q.allocations q.free_buf_ptr
        × NotIn memory (memory + size) p.allocations
        × (base + 4 ≤ memory)
        × (memory + size + 4 ≤ base + pool_size)
  unfolding garbagepool_alloc
  garbagepool_alloc-Laid p size h few fits =
      let le = Laid-le 4 p.allocations p.free_buf_ptr h in
      let room = leb→le (p.free_buf_ptr + size + 4) pool_size fits in
      (
        record p {
          allocations =
              p.allocations
              ++ (record { address = base + p.free_buf_ptr; size = size; is_free = false } ∷ []);
          free_buf_ptr = p.free_buf_ptr + size + 4;
          buf = store p.buf (p.free_buf_ptr + size) guard_bytes;
        },
        base + p.free_buf_ptr,
        rw (few) (rw (fits) refl),
        Laid-append 4 p.allocations p.free_buf_ptr size h,
        Laid-NotIn 4 p.allocations p.free_buf_ptr (base + p.free_buf_ptr + size) h,
        omega (arith, le),
        omega (arith, room),
      )

  find_last-mark_free :
      (blocks : List Allocation) (i memory k : ℕ) (found : Option ℕ)
      → find_last base (mark_free base blocks i) memory k found
        ≡ find_last base blocks memory k found
  unfolding find_last mark_free
  find_last-mark_free [] i memory k found = refl
  find_last-mark_free (a ∷ blocks) zero memory k found = refl
  find_last-mark_free (a ∷ blocks) (suc i) memory k found =
      find_last-mark_free blocks i memory (k + 1) (if a.address == memory then some k else found)

  get_elem?-mark_free :
      (blocks : List Allocation) (i : ℕ) {a : Allocation}
      → get_elem? blocks i ≡ some a
      → (b : Allocation) × (get_elem? (mark_free base blocks i) i ≡ some b) × (b.is_free ≡ true)
  unfolding mark_free
  get_elem?-mark_free [] i e = cc
  get_elem?-mark_free (b ∷ blocks) zero e = (record b { is_free = true }, refl, refl)
  get_elem?-mark_free (b ∷ blocks) (suc i) e = get_elem?-mark_free blocks i e

  -- A block that was freed cannot be freed again: the second call fails its assertion.
  pub garbagepool_free-twice :
      (p : Pool) (memory : ℕ) {q : Pool}
      → garbagepool_free base p memory ≡ ok q
      → garbagepool_free base q memory ≡ err assertion
  unfolding garbagepool_free
  garbagepool_free-twice p memory {q} h = go (find_last base p.allocations memory 0 none) refl h
    where
      was_free : {b : Bool} → b ≡ true → ◌≡◌ {A = Result Pool} (err assertion) (ok q) → ⊥
      was_free e h = cc

      same_ok : {x : Pool} → ◌≡◌ {A = Result Pool} (ok x) (ok q) → x ≡ q
      same_ok h = cc

      ended : Option ℕ → Result Pool
      ended found = from_option found assertion >>= λ i.
          from_option (get_elem? p.allocations i) assertion >>= λ a.
          guard (not a.is_free) assertion
          >> ok (record p { allocations = mark_free base p.allocations i })

      again :
          (i : ℕ) (a : Allocation)
          → find_last base p.allocations memory 0 none ≡ some i
          → get_elem? p.allocations i ≡ some a
          → record p { allocations = mark_free base p.allocations i } ≡ q
          → garbagepool_free base q memory ≡ err assertion
      again i a e f g =
          let (b, k, marked) = get_elem?-mark_free p.allocations i f in
          ap (λ r. garbagepool_free base r memory) (sym g)
          ∙ rw (find_last-mark_free p.allocations i memory 0 none) (rw e (rw k (rw marked refl)))

      at_block :
          (i : ℕ)
          → find_last base p.allocations memory 0 none ≡ some i
          → (slot : Option Allocation) → get_elem? p.allocations i ≡ slot
          → (from_option slot assertion >>= λ a.
              guard (not a.is_free) assertion
              >> ok (record p { allocations = mark_free base p.allocations i }))
            ≡ ok q
          → garbagepool_free base q memory ≡ err assertion
      at_block i e none f h = cc
      at_block i e (some a) f h = elim (Bool-cases (a.is_free)) [
        | inl freed ↦ absurd (was_free freed (rw freed at h))
        | inr used ↦ again i a e f (same_ok (rw used at h))
      ]

      go :
          (found : Option ℕ)
          → find_last base p.allocations memory 0 none ≡ found
          → ended found ≡ ok q
          → garbagepool_free base q memory ≡ err assertion
      go none e h = cc
      go (some i) e h = at_block i e (get_elem? p.allocations i) refl h
