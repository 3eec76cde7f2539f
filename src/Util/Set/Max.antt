-- ===== src/Util/Set/Max.antt =====
-- RST_set_max_element, whose result bounds the descriptors given to select().
use librestserver.Util.Num.{int_comparator, int_comparator_sign}
use librestserver.Util.Vector.{Vector}
use librestserver.Util.Vector
use librestserver.Util.Vector.Shape.{Holds, read_slot-Holds}
use librestserver.Util.Set.{Group, max_from, max_element, value, end}
use librestserver.Prelude.{
  ℕ, zero, suc, ◌+◌, ◌^◌, ◌≤◌, ◌<◌, ◌≡◌, refl, ap, ◌∙◌, Bool, true, false, ◌||◌, List, [], ◌∷◌,
  ◌++◌, append_assoc, arith, ltb, leb, ◌==◌, if◌then◌else◌, length, length-append,
  get_elem?-append_length, ok, is_positive,
}

-- The greatest of a first number and a list.
unfoldable pub greatest : ℕ → List ℕ → ℕ
greatest best [] = best
greatest best (x ∷ xs) = greatest (if ltb best x then x else best) xs

abbrev pub AllBelow : ℕ → List ℕ → Type 0
AllBelow n [] = Unit
AllBelow n (x ∷ xs) = (x < n) × AllBelow n xs

abbrev pub AtMost : List ℕ → ℕ → Type 0
AtMost [] m = Unit
AtMost (x ∷ xs) m = (x ≤ m) × AtMost xs m

abbrev pub occurs : ℕ → List ℕ → Bool
occurs m [] = false
occurs m (x ∷ xs) = (m == x) || occurs m xs

greatest-occurs : (best : ℕ) (xs : List ℕ) → occurs (greatest best xs) (best ∷ xs) ≡ true
unfolding greatest
greatest-occurs best [] = ground arith
greatest-occurs best (x ∷ xs) = ground (arith, greatest-occurs (if ltb best x then x else best) xs)

greatest_bound : (best : ℕ) (xs : List ℕ) → (best ≤ greatest best xs) × AtMost xs (greatest best xs)
unfolding greatest
greatest_bound best [] = (omega arith, tt)
greatest_bound best (x ∷ xs) =
    let (p, q) = greatest_bound (if ltb best x then x else best) xs in
    (ground (arith, p), (ground (arith, p), q))

max_from-Holds :
    (fuel : ℕ) (s : Group ℕ) (pre ys : List ℕ) (best : ℕ)
    → s.comparator ≡ int_comparator
    → Holds s.v (pre ++ ys)
    → AllBelow (2 ^ 31) ys
    → best < 2 ^ 31
    → length ys < fuel
    → max_from fuel s (record { k = length pre }) best ≡ ok (greatest best ys)
unfolding max_from greatest Vector.next value end
max_from-Holds zero s pre ys best c h q b lt = absurd (omega arith)
max_from-Holds (suc fuel) s pre [] best c h q b lt =
    let past : leb s.v.size (length pre) ≡ true = ground (arith, h.counted, length-append pre []) in
    rw (past, max_from)
max_from-Holds (suc fuel) s pre (y ∷ ys) best c h q b lt =
    let inside : leb s.v.size (length pre) ≡ false =
      ground (arith, h.counted, length-append pre (y ∷ ys)) in
    let h' : Holds s.v ((pre ++ (y ∷ [])) ++ ys) = rw (append_assoc pre (y ∷ []) ys) h in
    let e : length pre + 1 ≡ length (pre ++ (y ∷ [])) = omega (arith, length-append pre (y ∷ [])) in
    let (z, f, g) = int_comparator_sign y best q.0 b in
    let compared : s.comparator y best ≡ ok z = ap (λ cmp. cmp y best) c ∙ f in
    let pick : is_positive z ≡ ltb best y = ground (arith, g.0, g.1) in
    rw (inside, max_from, read_slot-Holds (length pre) h (get_elem?-append_length pre y ys))
      (rw compared (
        rw (pick, e)
          (max_from-Holds fuel s (pre ++ (y ∷ [])) ys (if ltb best y then y else best) c h' q.1
            (ground arith) (omega arith))))

-- In a nonempty set of sockets below 2^31, compared by RST_int_comparator, the search finds one of
-- them, and none is greater.
pub max_element-AtMost :
    (s : Group ℕ) (x : ℕ) (xs : List ℕ)
    → s.comparator ≡ int_comparator
    → Holds s.v (x ∷ xs)
    → AllBelow (2 ^ 31) (x ∷ xs)
    → (m : ℕ) × (max_element s ≡ ok m) × (occurs m (x ∷ xs) ≡ true) × AtMost (x ∷ xs) m
unfolding max_element value Vector.begin Vector.next
max_element-AtMost s x xs c h q =
    let (p, r) = greatest_bound x xs in
    (
      greatest x xs,
      rw (read_slot-Holds 0 h refl)
          (max_from-Holds (suc s.v.size) s (x ∷ []) xs x c h q.1 q.0 (omega (arith, h.counted))),
      greatest-occurs x xs,
      (p, r),
    )
