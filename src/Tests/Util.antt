-- ===== src/Tests/Util.antt =====
-- The containers, the text functions and the string builders at small inputs.
use librestserver.Libc.{codes}
use librestserver.Util.Num.{int_comparator, IsWord, int_comparator_sign}
use librestserver.Util.Vector.{Vector, erase}
use librestserver.Util.Vector.Shape.{Holds, erase-Holds}
use librestserver.Util.Map
use librestserver.Util.Map.Shape.{lookup, has, inserted}
use librestserver.Util.Map.Erase.{without, erased_calls}
use librestserver.Util.Map.Laws.{IsMap, find-insert, find-erase}
use librestserver.Util.Set
use librestserver.Util.Set.Laws.{IsSetOf, member, removed}
use librestserver.Util.Set.Updates.{added, contains-insert, contains-erase}
use librestserver.Util.StringBuilder.{StringBuilder, append_n}
use librestserver.Util.StringBuilder.Laws.{Spells, append_n-Spells}
use librestserver.Util.Replace.{str_replace}
use librestserver.Util.Replace.Laws.{replaced, str_replace-replaced}
use librestserver.Tests.Samples.{
  vector, vector-Holds, table, pairs, table-IsMap, group, group-IsSetOf,
}
use librestserver.Prelude.{
  ℕ, ◌<◌, ◌≡◌, refl, ◌↔◌, true, false, ◌||◌, none, some, [], ◌∷◌, ◌++◌, arith, ◌==◌, if◌then◌else◌,
  ok, ℤ, is_positive,
}

erase-Holds_example : (w : Vector ℕ) × (erase vector 1 ≡ ok w) × Holds w (5 ∷ 6 ∷ 80 ∷ [])
erase-Holds_example = erase-Holds (5 ∷ []) 70 (6 ∷ 80 ∷ []) vector-Holds

-- Inserting at a key that is there finds the old value.
find-insert_example :
    (n : Map.Table ℕ) × (Map.insert table 6 9 ≡ ok n)
    × IsMap ◌==◌ IsWord n (inserted ◌==◌ IsWord 6 9 pairs)
    × (Map.find n 6
        ≡ ok (
            if has ◌==◌ 6 pairs
            then lookup ◌==◌ 6 pairs
            else if has ◌==◌ 6 pairs
            then lookup ◌==◌ 6 pairs
            else if 6 == 6
            then some 9
            else none))
find-insert_example = find-insert ◌==◌ IsWord 6 9 6 table-IsMap (omega arith) (omega arith)

find-erase_example :
    (n : Map.Table ℕ) × (Map.erase table 5 ≡ ok (n, erased_calls ◌==◌ none none 5 0 pairs))
    × IsMap ◌==◌ IsWord n (without ◌==◌ 5 pairs)
    × (Map.find n 6 ≡ ok (if 5 == 6 then none else lookup ◌==◌ 6 pairs))
find-erase_example = find-erase ◌==◌ IsWord 5 6 table-IsMap (omega arith) (omega arith)

contains-insert_example :
    (t : Set.Group ℕ) × (Set.insert group 9 ≡ ok t)
    × IsSetOf ◌==◌ IsWord t (added ◌==◌ IsWord 9 (5 ∷ 70 ∷ 6 ∷ 80 ∷ []))
    × (Set.contains t 70 ≡ ok ((9 == 70) || member ◌==◌ IsWord 70 (5 ∷ 70 ∷ 6 ∷ 80 ∷ [])))
contains-insert_example = contains-insert ◌==◌ IsWord 9 70 group-IsSetOf (omega arith) (omega arith)

contains-erase_example :
    (t : Set.Group ℕ) × (Set.erase group 70 ≡ ok t)
    × IsSetOf ◌==◌ IsWord t (removed ◌==◌ IsWord 70 (5 ∷ 70 ∷ 6 ∷ 80 ∷ []))
    × (Set.contains t 70
        ≡ ok (if 70 == 70 then false else member ◌==◌ IsWord 70 (5 ∷ 70 ∷ 6 ∷ 80 ∷ [])))
contains-erase_example = contains-erase ◌==◌ IsWord 70 70 group-IsSetOf (omega arith) (omega arith)

int_comparator_sign_example :
    (z : ℤ) × (int_comparator 7 4 ≡ ok z) × ((is_positive z ≡ true) ↔ (4 < 7))
int_comparator_sign_example = int_comparator_sign 7 4 (omega arith) (omega arith)

abbrev hi : StringBuilder
hi = record { buf = b'h' ∷ b'i' ∷ 0 ∷ []; len = 2 }

hi-Spells : Spells hi (b'h' ∷ b'i' ∷ [])
hi-Spells = record { exact = refl; counted = refl }

append_n-Spells_example :
    (out : StringBuilder) × (append_n hi (b'!' ∷ b'?' ∷ []) 1 ≡ ok out)
    × Spells out (b'h' ∷ b'i' ∷ b'!' ∷ [])
append_n-Spells_example = append_n-Spells (b'!' ∷ []) (b'?' ∷ []) hi-Spells

str_replace-replaced_example :
    str_replace
      (some (codes "a..b" ++ (0 ∷ [])))
      (some (codes ".." ++ (0 ∷ [])))
      (some (codes "-" ++ (0 ∷ [])))
    ≡ ok (some (replaced (codes "..") (codes "-") 0 (codes "a..b") ++ (0 ∷ [])))
str_replace-replaced_example =
    str_replace-replaced (codes "a..b") (codes "..") (codes "-")
      (omega arith, (omega arith, (omega arith, (omega arith, tt))))
      (omega arith, (omega arith, tt)) (omega arith, tt) (λ e. cc)
