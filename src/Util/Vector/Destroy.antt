-- ===== src/Util/Vector/Destroy.antt =====
-- Clearing and releasing a vector: the destructor meets every element once, in order.
use librestserver.Util.Vector.{
  Vector, Destructor, Call, element, read_slot, destroy_from, destroy_all, clear, release,
}
use librestserver.Util.Vector.Shape.{Holds}
use librestserver.Prelude.{
  ◌+◌, ◌≡◌, refl, Option, none, some, List, [], ◌∷◌, ◌++◌, map, append_assoc, arith, length,
  length-append, get_elem?-append_length, ok,
}

module _ {A : Type 0} where
  -- The calls that a destructor gets for the elements of a list.
  abbrev pub calls_for : Option Destructor → List A → List (Call A)
  calls_for none xs = []
  calls_for (some d) xs = map (λ x. (d, element x)) xs

  destroy_from-slots :
      (d : Destructor) (pre : List (Option A)) (xs : List A) (u : List (Option A))
      → destroy_from d (length xs) (length pre) (pre ++ (map some xs ++ u))
        ≡ ok (calls_for (some d) xs)
  unfolding destroy_from read_slot
  destroy_from-slots d pre [] u = refl
  destroy_from-slots d pre (x ∷ xs) u =
      let here : length pre + 1 ≡ length (pre ++ (some x ∷ [])) =
        omega (arith, length-append pre (some x ∷ [])) in
      let later : destroy_from d (length xs) (length pre + 1) (pre ++ (some x ∷ (map some xs ++ u)))
          ≡ ok (calls_for (some d) xs) =
        rw (here, ← append_assoc pre (some x ∷ []) (map some xs ++ u))
          (destroy_from-slots d (pre ++ (some x ∷ [])) xs u) in
      rw (get_elem?-append_length pre (some x) (map some xs ++ u)) (rw later)

  pub destroy_all-Holds :
      {v : Vector A} {xs : List A} → Holds v xs → destroy_all v ≡ ok (calls_for v.destructor xs)
  unfolding destroy_all
  destroy_all-Holds {v} {xs} h = go v.destructor
    where
      go :
          (d : Option Destructor)
          → (elim d [ none ↦ ok [] | some e ↦ destroy_from e v.size 0 v.slots ])
            ≡ ok (calls_for d xs)
      go none = refl
      go (some e) = rw (h.layout, h.counted) (destroy_from-slots e [] xs h.unused)

  -- Clearing keeps the block and the destructor, and leaves the vector empty.
  pub clear-Holds :
      {v : Vector A} {xs : List A}
      → Holds v xs
      → (w : Vector A) × (clear v ≡ ok (w, calls_for v.destructor xs))
        × Holds w []
        × (w.capacity ≡ v.capacity)
  unfolding clear
  clear-Holds {v} {xs} h = (
    record v { size = 0 },
    rw (destroy_all-Holds h),
    record { unused = v.slots; layout = refl; counted = refl; block = h.block; room = h.room },
    refl,
  )

  pub release-Holds :
      {v : Vector A} {xs : List A} → Holds v xs → release v ≡ ok (calls_for v.destructor xs)
  unfolding release
  release-Holds h = destroy_all-Holds h
