-- ===== src/Util/Map.antt =====
-- RST_Map of librestserver/rstutil.c: keys and values alternate in one vector. The comparator is
-- a function of the caller, and may fault (strcmp of a null pointer).
pub mod Shape
pub mod Erase
pub mod Laws
pub mod Release
use librestserver.Util.Vector.{Vector, Destructor, Call, element, slot, read_slot}
use librestserver.Util.Vector
use librestserver.Prelude.{
  ℕ, zero, suc, ◌+◌, Bool, true, false, Option, none, some, List, [], ◌∷◌, ◌++◌, ltb, leb,
  if◌then◌else◌, no_progress, Result, ok, err, ◌>>=◌, ◌>>◌, ℤ, is_zero,
}

pub record Table (A : Type 0) : Type 0 where
  pub v : Vector A
  pub comparator : A → A → Result ℤ
  pub key_destructor : Option Destructor
  pub value_destructor : Option Destructor

module _ {A : Type 0} where
  unfoldable pub init : (A → A → Result ℤ) → Option Destructor → Option Destructor → Table A
  unfolding Vector.init
  init cmp kd vd = record {
    v = Vector.init none;
    comparator = cmp;
    key_destructor = kd;
    value_destructor = vd;
  }

  -- `comparator(key, data[i]) == 0`
  unfoldable pub same_key : Table A → A → ℕ → Result Bool
  unfolding read_slot
  same_key m key i = do k ← read_slot m.v.slots i; z ← m.comparator key k; ok (is_zero z)

  -- for (i = 0; i < size; i += 2), on fuel: more than `size` rounds are never made
  unfoldable pub contains_from : ℕ → Table A → A → ℕ → Result Bool
  unfolding same_key
  contains_from zero m key i = err no_progress
  contains_from (suc fuel) m key i = elim (ltb i m.v.size) [
    | false ↦ ok false
    | true ↦
        same_key m key i
        >>= (λ hit. elim hit [ true ↦ ok true | false ↦ contains_from fuel m key (i + 2) ])
  ]

  unfoldable pub contains : Table A → A → Result Bool
  unfolding contains_from
  contains m key = contains_from (suc m.v.size) m key 0

  unfoldable pub find_from : ℕ → Table A → A → ℕ → Result (Option A)
  unfolding same_key
  find_from zero m key i = err no_progress
  find_from (suc fuel) m key i = elim (ltb i m.v.size) [
    | false ↦ ok none
    | true ↦ same_key m key i >>= (λ hit. elim hit [
      | true ↦ (read_slot m.v.slots (i + 1) >>= λ x. ok (some x))
      | false ↦ find_from fuel m key (i + 2)
    ])
  ]

  -- The option is the returned flag with `*out_value`, which is written only when it is 1.
  unfoldable pub find : Table A → A → Result (Option A)
  unfolding find_from
  find m key = find_from (suc m.v.size) m key 0

  unfoldable pub insert_new : Table A → A → A → Result (Table A)
  unfolding Vector.push_back
  insert_new m key value = do
    v ← Vector.push_back m.v key
    w ← Vector.push_back v value
    ok (record m { v = w })

  unfoldable pub insert : Table A → A → A → Result (Table A)
  unfolding contains insert_new
  insert m key value = do present ← contains m key; if present then ok m else insert_new m key value

  -- The destructor of a key that is erased gets the address of its slot.
  abbrev pub key_call : Option Destructor → ℕ → List (Call A)
  key_call none i = []
  key_call (some d) i = (d, slot i) ∷ []

  -- The value of the erased pair has moved to slot `i` when it is read.
  unfoldable pub value_call : Option Destructor → Vector A → ℕ → Result (List (Call A))
  unfolding read_slot
  value_call none v i = ok []
  value_call (some d) v i = do x ← read_slot v.slots i; ok ((d, element x) ∷ [])

  -- The body of the loop when the keys are equal.
  unfoldable pub erase_pair : Table A → ℕ → Result (Table A × List (Call A))
  unfolding Vector.erase value_call
  erase_pair m i = do
    v ← Vector.erase m.v i
    calls ← value_call m.value_destructor v i
    w ← Vector.erase v i
    ok (record m { v = w }, key_call m.key_destructor i ++ calls)

  unfoldable pub erase_from : ℕ → Table A → A → ℕ → Result (Table A × List (Call A))
  unfolding same_key erase_pair
  erase_from zero m key i = err no_progress
  erase_from (suc fuel) m key i = elim (ltb i m.v.size) [
    | false ↦ ok (m, [])
    | true ↦ same_key m key i >>= (λ hit. elim hit [
      | true ↦ erase_pair m i >>= (λ (r : Table A × List (Call A)).
          erase_from fuel r.0 key (i + 2)
          >>= (λ (t : Table A × List (Call A)). ok (t.0, r.1 ++ t.1)))
      | false ↦ erase_from fuel m key (i + 2)
    ])
  ]

  unfoldable pub erase : Table A → A → Result (Table A × List (Call A))
  unfolding erase_from
  erase m key = erase_from (suc m.v.size) m key 0

  -- The destructor of an element that the release meets.
  abbrev pub element_call : Option Destructor → List (Option A) → ℕ → Result (List (Call A))
  element_call none slots i = ok []
  element_call (some d) slots i = do x ← read_slot slots i; ok ((d, element x) ∷ [])

  unfoldable pub release_from : ℕ → Table A → ℕ → Result (List (Call A))
  unfolding read_slot
  release_from zero m i = err no_progress
  release_from (suc fuel) m i = elim (ltb i m.v.size) [
    | false ↦ ok []
    | true ↦ do
      k ← element_call m.key_destructor m.v.slots i
      x ← element_call m.value_destructor m.v.slots (i + 1)
      rest ← release_from fuel m (i + 2)
      ok (k ++ (x ++ rest))
  ]

  -- The vector is released with no destructor of its own.
  unfoldable pub release : Table A → Result (List (Call A))
  unfolding release_from Vector.release
  release m = do
    calls ← release_from (suc m.v.size) m 0
    more ← Vector.release (record (m.v) { destructor = none })
    ok (calls ++ more)

  -- RST_map_end, RST_map_iterator_next, RST_map_iterator_value; an iterator is its index.
  unfoldable pub end : Table A → ℕ → Bool
  end m k = leb m.v.size k

  unfoldable pub value : Table A → ℕ → Result (A × A)
  unfolding read_slot
  value m k = do key ← read_slot m.v.slots k; x ← read_slot m.v.slots (k + 1); ok (key, x)

unfoldable pub next : ℕ → ℕ
next k = k + 2
