-- ===== src/Util/Vector.antt =====
-- RST_Vector of librestserver/rstutil.c and its iterator. A slot that nothing was written to is
-- `none`. The calls that a function makes of the destructor are returned in their order.
pub mod Shape
pub mod Destroy
use librestserver.Prelude.{
  ℕ, zero, suc, ◌+◌, ◌-◌, ◌*◌, Bool, Option, none, some, List, [], ◌∷◌, ◌++◌, ltb, leb, ◌==◌,
  if◌then◌else◌, length, get_elem?, set, take, replicate, out_of_bounds, uninitialized, assertion,
  Result, ok, err, guard, from_option, ◌>>=◌, ◌>>◌,
}

-- The functions that the program passes as destructors.
pub data Destructor : Type 0 where
  cstr_dtor json_dtor rst_free client_release resource_release : Destructor

-- What a destructor is called with: an element, or the address of a slot.
pub data Argument (A : Type 0) : Type 0 where
  element : A → Argument A
  slot : ℕ → Argument A

abbrev pub Call : Type 0 → Type 0
Call A = Destructor × Argument A

pub record Vector (A : Type 0) : Type 0 where
  pub slots : List (Option A)
  pub size : ℕ
  pub capacity : ℕ
  pub destructor : Option Destructor

pub record Iterator : Type 0 where
  pub k : ℕ

unfoldable pub begin : Iterator
begin = record { k = 0 }

unfoldable pub next : Iterator → Iterator
next it = record it { k = it.k + 1 }

module _ {A : Type 0} where
  -- `data[i]`
  unfoldable pub read_slot : List (Option A) → ℕ → Result A
  read_slot slots i = do
    s ← from_option (get_elem? slots i) out_of_bounds
    from_option s uninitialized

  -- `data[i] = x`
  unfoldable pub write_slot : List (Option A) → ℕ → A → Result (List (Option A))
  write_slot slots i x =
      if ltb i (length slots) then ok (set slots i (some x)) else err out_of_bounds

  unfoldable pub init : Option Destructor → Vector A
  init d = record { slots = replicate 2 none; size = 0; capacity = 2; destructor = d }

  -- The realloc of a full vector keeps the old slots.
  unfoldable pub grow : Vector A → Vector A
  grow v =
      if v.size == v.capacity
      then record v {
        capacity = v.capacity * 2;
        slots = take (v.capacity * 2) v.slots ++ replicate (v.capacity * 2 - length v.slots) none;
      }
      else v

  unfoldable pub push_back : Vector A → A → Result (Vector A)
  unfolding grow write_slot
  push_back v x = do
    let w = grow v
    slots ← write_slot w.slots w.size x
    ok (record w { slots = slots; size = w.size + 1 })

  -- for (i = k; i < size - 1; i++) data[i] = data[i + 1], with the rounds left
  unfoldable pub shift_down : ℕ → ℕ → List (Option A) → Result (List (Option A))
  unfolding read_slot write_slot
  shift_down zero i slots = ok slots
  shift_down (suc n) i slots = do
    x ← read_slot slots (i + 1)
    s ← write_slot slots i x
    shift_down n (i + 1) s

  unfoldable pub erase : Vector A → ℕ → Result (Vector A)
  unfolding shift_down
  erase v k = do
    guard (ltb k v.size) assertion
    slots ← shift_down (v.size - 1 - k) k v.slots
    ok (record v { slots = slots; size = v.size - 1 })

  -- for (i = 0; i < size; i++) destructor(data[i]), with the rounds left
  unfoldable pub destroy_from : Destructor → ℕ → ℕ → List (Option A) → Result (List (Call A))
  unfolding read_slot
  destroy_from d zero i slots = ok []
  destroy_from d (suc n) i slots = do
    x ← read_slot slots i
    calls ← destroy_from d n (i + 1) slots
    ok ((d, element x) ∷ calls)

  unfoldable pub destroy_all : Vector A → Result (List (Call A))
  unfolding destroy_from
  destroy_all v = elim v.destructor [ none ↦ ok [] | some d ↦ destroy_from d v.size 0 v.slots ]

  unfoldable pub clear : Vector A → Result (Vector A × List (Call A))
  unfolding destroy_all
  clear v = do calls ← destroy_all v; ok (record v { size = 0 }, calls)

  -- The vector itself is given back to the allocator.
  unfoldable pub release : Vector A → Result (List (Call A))
  unfolding destroy_all
  release v = destroy_all v

  unfoldable pub end : Vector A → Iterator → Bool
  end v it = leb v.size it.k

  unfoldable pub value : Vector A → Iterator → Result A
  unfolding read_slot
  value v it = read_slot v.slots it.k
