-- ===== src/Util/Set/Laws.antt =====
-- A set that holds a list of distinct elements: membership after an insertion or an erasure.
use librestserver.Util.Num.{Compares}
use librestserver.Util.Vector.{Vector, Destructor}
use librestserver.Util.Vector.Shape.{Holds, init-Holds, read_slot-Holds, erase-Holds}
use librestserver.Util.Set.{Group, init, same_at, contains_from, contains, erase_from}
use librestserver.Prelude.{
  ℕ, zero, suc, ◌+◌, ◌<◌, ◌≡◌, sym, ap, ◌∙◌, inl, inr, Bool, true, false, Option, none, List, [],
  ◌∷◌, ◌++◌, append_assoc, arith, ltb, if◌then◌else◌, Bool-cases, length, length-append,
  get_elem?-append_length, Result, ok, ℤ,
}

module _ {A : Type 0} (eq : A → A → Bool) (Held : A → Type 0) where
  abbrev pub AllHeld : List A → Type 0
  AllHeld [] = Unit
  AllHeld (x ∷ xs) = Held x × AllHeld xs

  unfoldable pub member : A → List A → Bool
  member x [] = false
  member x (y ∷ ys) = if eq y x then true else member x ys

  abbrev pub NoRepeat : List A → Type 0
  NoRepeat [] = Unit
  NoRepeat (x ∷ xs) = (member x xs ≡ false) × NoRepeat xs

  -- The list without the first element that equals `x`.
  unfoldable pub removed : A → List A → List A
  removed x [] = []
  removed x (y ∷ ys) = if eq y x then ys else y ∷ removed x ys

  pub record IsSetOf (s : Group A) (xs : List A) : Type 0 where
    pub compares : Compares s.comparator eq Held
    pub holds : Holds s.v xs
    pub held : AllHeld xs
    pub distinct : NoRepeat xs

  pub init-IsSetOf :
      (cmp : A → A → Result ℤ) (d : Option Destructor)
      → Compares cmp eq Held
      → IsSetOf (init cmp d) []
  unfolding init
  init-IsSetOf cmp d c = record { compares = c; holds = init-Holds none; held = tt; distinct = tt }

  same_at-Holds :
      (s : Group A) {x y : A} (pre rest : List A)
      → Compares s.comparator eq Held
      → Holds s.v (pre ++ (y ∷ rest))
      → Held y
      → Held x
      → same_at s x (length pre) ≡ ok (eq y x)
  unfolding same_at
  same_at-Holds s {x} {y} pre rest c h p q =
      let (z, e, f) = c.returns y x p q in
      rw (read_slot-Holds (length pre) h (get_elem?-append_length pre y rest)) (rw (e, f))

  pub one_more :
      {v : Vector A} (pre : List A) (y : A) (rest : List A)
      → Holds v (pre ++ (y ∷ rest))
      → Holds v ((pre ++ (y ∷ [])) ++ rest) × (length pre + 1 ≡ length (pre ++ (y ∷ [])))
  one_more pre y rest h =
      (rw (append_assoc pre (y ∷ []) rest) h, omega (arith, length-append pre (y ∷ [])))

  pub contains_from-Holds :
      (fuel : ℕ) (s : Group A) (x : A) (pre ys : List A)
      → Compares s.comparator eq Held
      → Holds s.v (pre ++ ys)
      → Held x
      → AllHeld ys
      → length ys < fuel
      → contains_from fuel s x (length pre) ≡ ok (member x ys)
  unfolding contains_from member
  contains_from-Holds zero s x pre ys c h p q lt = absurd (omega arith)
  contains_from-Holds (suc fuel) s x pre [] c h p q lt =
      let past : ltb (length pre) s.v.size ≡ false =
        ground (arith, h.counted, length-append pre []) in
      rw (past, contains_from)
  contains_from-Holds (suc fuel) s x pre (y ∷ ys) c h p q lt =
      let inside : ltb (length pre) s.v.size ≡ true =
        ground (arith, h.counted, length-append pre (y ∷ ys)) in
      let (h', e) = one_more pre y ys h in
      let later = contains_from-Holds fuel s x (pre ++ (y ∷ [])) ys c h' p q.1 (omega arith) in
      rw (inside, contains_from, same_at-Holds s pre ys c h q.0 p)
        (elim (Bool-cases (eq y x)) [ inl hit ↦ rw hit | inr miss ↦ rw (miss, e) later ])

  pub contains-IsSetOf :
      {s : Group A} {xs : List A} (x : A) → IsSetOf s xs → Held x → contains s x ≡ ok (member x xs)
  unfolding contains
  contains-IsSetOf {s} {xs} x h p =
      contains_from-Holds (suc s.v.size) s x [] xs h.compares h.holds p h.held
        (omega (arith, h.holds.counted))

  pub erase_from-Holds :
      (fuel : ℕ) (s : Group A) (x : A) (pre ys : List A)
      → Compares s.comparator eq Held
      → Holds s.v (pre ++ ys)
      → Held x
      → AllHeld ys
      → length ys < fuel
      → (w : Vector A) × (erase_from fuel s x (length pre) ≡ ok (record s { v = w }))
        × Holds w (pre ++ removed x ys)
  unfolding erase_from removed
  erase_from-Holds zero s x pre ys c h p q lt = absurd (omega arith)
  erase_from-Holds (suc fuel) s x pre [] c h p q lt =
      let past : ltb (length pre) s.v.size ≡ false =
        ground (arith, h.counted, length-append pre []) in
      (s.v, rw (past, erase_from), h)
  erase_from-Holds (suc fuel) s x pre (y ∷ ys) c h p q lt =
      let inside : ltb (length pre) s.v.size ≡ true =
        ground (arith, h.counted, length-append pre (y ∷ ys)) in
      let (h', e) = one_more pre y ys h in
      let same = same_at-Holds s pre ys c h q.0 p in
      elim (Bool-cases (eq y x)) [
        | inl hit ↦
            let (w, f, g) = erase-Holds pre y ys h in
            (w, rw (inside, erase_from, same) (rw hit (rw f)), rw hit g)
        | inr miss ↦
            let (w, f, g) =
              erase_from-Holds fuel s x (pre ++ (y ∷ [])) ys c h' p q.1 (omega arith) in
            (
              w,
              rw (inside, erase_from, same) (rw (miss, e) f),
              rw miss (rw (append_assoc pre (y ∷ []) (removed x ys)) at g),
            )
      ]

  pub member-removed :
      {cmp : A → A → Result ℤ} (j x : A) (ys : List A)
      → Compares cmp eq Held
      → Held j
      → Held x
      → AllHeld ys
      → NoRepeat ys
      → member j (removed x ys) ≡ (if eq j x then false else member j ys)
  unfolding member removed
  member-removed j x [] c p q r d = ground arith
  member-removed j x (y ∷ ys) c p q r d =
      let y_x = c.equal_iff y x r.0 q in
      let y_j = c.equal_iff y j r.0 p in
      let j_x = c.equal_iff j x p q in
      let absent : y ≡ j → member j ys ≡ false = λ e. ap (λ k. member k ys) (sym e) ∙ d.0 in
      elim (Bool-cases (eq y x)) [
        | inl hit ↦ rw hit (ground (arith, y_x.0, y_x.1, y_j.0, y_j.1, j_x.0, j_x.1, absent))
        | inr miss ↦ rw miss (
            ground (
              arith,
              y_x.0,
              y_x.1,
              y_j.0,
              y_j.1,
              j_x.0,
              j_x.1,
              member-removed j x ys c p q r.1 d.1,
            ))
      ]
