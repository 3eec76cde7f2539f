-- ===== src/Util/Set.antt =====
-- RST_Set of librestserver/rstutil.c: a vector without repetitions, searched in order.
pub mod Laws
pub mod Updates
pub mod Max
use librestserver.Util.Vector.{Vector, Destructor, Call, Iterator, read_slot}
use librestserver.Util.Vector
use librestserver.Prelude.{
  ℕ, zero, suc, ◌+◌, Bool, true, false, Option, none, List, ltb, leb, ◌==◌, if◌then◌else◌,
  no_progress, Result, ok, err, ◌>>=◌, ◌>>◌, ℤ, is_zero, is_positive,
}

pub record Group (A : Type 0) : Type 0 where
  pub v : Vector A
  pub comparator : A → A → Result ℤ
  pub destructor : Option Destructor

module _ {A : Type 0} where
  unfoldable pub init : (A → A → Result ℤ) → Option Destructor → Group A
  unfolding Vector.init
  init cmp d = record { v = Vector.init none; comparator = cmp; destructor = d }

  -- `comparator(data[i], x) == 0`
  unfoldable pub same_at : Group A → A → ℕ → Result Bool
  unfolding read_slot
  same_at s x i = do y ← read_slot s.v.slots i; z ← s.comparator y x; ok (is_zero z)

  -- for (i = 0; i < size; i++), on fuel: more than `size` rounds are never made
  unfoldable pub contains_from : ℕ → Group A → A → ℕ → Result Bool
  unfolding same_at
  contains_from zero s x i = err no_progress
  contains_from (suc fuel) s x i = elim (ltb i s.v.size) [
    | false ↦ ok false
    | true ↦
        same_at s x i
        >>= (λ hit. elim hit [ true ↦ ok true | false ↦ contains_from fuel s x (i + 1) ])
  ]

  unfoldable pub contains : Group A → A → Result Bool
  unfolding contains_from
  contains s x = contains_from (suc s.v.size) s x 0

  abbrev pub insert_new : Group A → A → Result (Group A)
  insert_new s x = do v ← Vector.push_back s.v x; ok (record s { v = v })

  unfoldable pub insert : Group A → A → Result (Group A)
  unfolding contains Vector.push_back
  insert s x = do present ← contains s x; if present then ok s else insert_new s x

  unfoldable pub erase_from : ℕ → Group A → A → ℕ → Result (Group A)
  unfolding same_at Vector.erase
  erase_from zero s x i = err no_progress
  erase_from (suc fuel) s x i = elim (ltb i s.v.size) [
    | false ↦ ok s
    | true ↦ same_at s x i >>= (λ hit. elim hit [
      | true ↦ (Vector.erase s.v i >>= λ v. ok (record s { v = v }))
      | false ↦ erase_from fuel s x (i + 1)
    ])
  ]

  unfoldable pub erase : Group A → A → Result (Group A)
  unfolding erase_from
  erase s x = erase_from (suc s.v.size) s x 0

  -- The vector is released with the set's destructor.
  unfoldable pub release : Group A → Result (List (Call A))
  unfolding Vector.release
  release s = Vector.release (record (s.v) { destructor = s.destructor })

  unfoldable pub end : Group A → Iterator → Bool
  unfolding Vector.end
  end s it = leb s.v.size it.k

  unfoldable pub value : Group A → Iterator → Result A
  unfolding read_slot
  value s it = read_slot s.v.slots it.k

  -- The loop of RST_set_max_element, with the greatest element so far.
  unfoldable pub max_from : ℕ → Group A → Iterator → A → Result A
  unfolding end value Vector.next
  max_from zero s it best = err no_progress
  max_from (suc fuel) s it best = elim (end s it) [
    | true ↦ ok best
    | false ↦ value s it >>= (λ cur.
        s.comparator cur best
        >>= (λ z. max_from fuel s (Vector.next it) (if is_positive z then cur else best)))
  ]

  unfoldable pub max_element : Group A → Result A
  unfolding max_from value Vector.begin Vector.next
  max_element s = do
    first ← value s Vector.begin
    max_from (suc s.v.size) s (Vector.next Vector.begin) first

  -- `size == 0`
  unfoldable pub is_empty : Group A → Bool
  is_empty s = s.v.size == 0
