-- ===== src/Util/Set/Updates.antt =====
-- Insertion into a set and erasure from it keep its elements distinct, and change the membership
-- of the one element only.
use librestserver.Util.Num.{Compares}
use librestserver.Util.Vector.{Vector}
use librestserver.Util.Vector.Shape.{push_back-Holds}
use librestserver.Util.Set.{Group, contains, insert, erase}
use librestserver.Util.Set.Laws.{
  AllHeld, member, NoRepeat, removed, IsSetOf, contains-IsSetOf, erase_from-Holds, member-removed,
}
use librestserver.Prelude.{
  suc, ◌≡◌, refl, sym, ap, ◌∙◌, inl, inr, Bool, true, false, ◌||◌, List, [], ◌∷◌, ◌++◌, arith,
  if◌then◌else◌, Bool-cases, Result, ok, ℤ,
}

module _ {A : Type 0} (eq : A → A → Bool) (Held : A → Type 0) where
  pub member-append :
      (j : A) (ys zs : List A)
      → member eq Held j (ys ++ zs) ≡ (member eq Held j ys || member eq Held j zs)
  unfolding member
  member-append j [] zs = refl
  member-append j (y ∷ ys) zs = ground (arith, member-append j ys zs)

  AllHeld-append :
      (ys : List A) (x : A) → AllHeld eq Held ys → Held x → AllHeld eq Held (ys ++ (x ∷ []))
  AllHeld-append [] x h p = (p, tt)
  AllHeld-append (y ∷ ys) x h p = (h.0, AllHeld-append ys x h.1 p)

  NoRepeat-append :
      {cmp : A → A → Result ℤ} (ys : List A) (x : A)
      → Compares cmp eq Held
      → Held x
      → AllHeld eq Held ys
      → member eq Held x ys ≡ false
      → NoRepeat eq Held ys
      → NoRepeat eq Held (ys ++ (x ∷ []))
  unfolding member
  NoRepeat-append [] x c p q h d = (refl, tt)
  NoRepeat-append (y ∷ ys) x c p q h d =
      let x_y = c.equal_iff x y p q.0 in
      let y_x = c.equal_iff y x q.0 p in
      let differ : eq x y ≡ false = ground (arith, x_y.0, x_y.1, y_x.0, y_x.1) in
      let absent : member eq Held x ys ≡ false = ground arith in
      (member-append y ys (x ∷ []) ∙ rw (d.0, differ), NoRepeat-append ys x c p q.1 absent d.1)

  pub AllHeld-removed :
      (x : A) (ys : List A) → AllHeld eq Held ys → AllHeld eq Held (removed eq Held x ys)
  unfolding removed
  AllHeld-removed x [] q = tt
  AllHeld-removed x (y ∷ ys) q = elim (Bool-cases (eq y x)) [
    | inl hit ↦ rw hit q.1
    | inr miss ↦ rw miss (q.0, AllHeld-removed x ys q.1)
  ]

  absent-removed :
      (j x : A) (ys : List A)
      → member eq Held j ys ≡ false
      → member eq Held j (removed eq Held x ys) ≡ false
  unfolding member removed
  absent-removed j x [] h = refl
  absent-removed j x (y ∷ ys) h = ground (arith, absent-removed j x ys)

  NoRepeat-removed :
      (x : A) (ys : List A) → NoRepeat eq Held ys → NoRepeat eq Held (removed eq Held x ys)
  unfolding removed
  NoRepeat-removed x [] d = tt
  NoRepeat-removed x (y ∷ ys) d = elim (Bool-cases (eq y x)) [
    | inl hit ↦ rw hit d.1
    | inr miss ↦ rw miss (absent-removed y x ys d.0, NoRepeat-removed x ys d.1)
  ]

  -- What an insertion makes of the elements.
  abbrev pub added : A → List A → List A
  added x ys = if member eq Held x ys then ys else ys ++ (x ∷ [])

  -- An insertion keeps the comparator, and leaves a set of distinct elements.
  pub insert-IsSetOf :
      {s : Group A} {xs : List A} (x : A)
      → IsSetOf eq Held s xs
      → Held x
      → (v : Vector A) × (insert s x ≡ ok (record s { v = v }))
        × IsSetOf eq Held (record s { v = v }) (added x xs)
  unfolding insert
  insert-IsSetOf {s} {xs} x h p = elim (Bool-cases (member eq Held x xs)) [
    | inl old ↦ (s.v, rw (contains-IsSetOf eq Held x h p) (rw old), rw old h)
    | inr new ↦
        let (v, e, g) = push_back-Holds x h.holds in
        let set_of : IsSetOf eq Held (record s { v = v }) (xs ++ (x ∷ [])) = record {
          compares = h.compares;
          holds = g;
          held = AllHeld-append xs x h.held p;
          distinct = NoRepeat-append xs x h.compares p h.held new h.distinct;
        } in
        (v, rw (contains-IsSetOf eq Held x h p) (rw new (rw e)), rw new set_of)
  ]

  pub member-added :
      {cmp : A → A → Result ℤ} (x j : A) (xs : List A)
      → Compares cmp eq Held
      → Held x
      → Held j
      → member eq Held j (added x xs) ≡ (eq x j || member eq Held j xs)
  member-added x j xs c p q = elim (Bool-cases (member eq Held x xs)) [
    | inl old ↦ rw old (known old)
    | inr new ↦ rw new (member-append j xs (x ∷ []) ∙ last)
  ]
    where
      known : member eq Held x xs ≡ true → member eq Held j xs ≡ (eq x j || member eq Held j xs)
      known old =
          let x_j = c.equal_iff x j p q in
          elim (Bool-cases (eq x j)) [
            | inl same ↦ rw same (ap (λ k. member eq Held k xs) (sym (x_j.0 same)) ∙ old)
            | inr other ↦ rw other
          ]

      last : (member eq Held j xs || member eq Held j (x ∷ [])) ≡ (eq x j || member eq Held j xs)
      last = unfold member in ground arith

  -- An insertion leaves a set of distinct elements that holds the new one, and of the others
  -- exactly those that it held.
  pub contains-insert :
      {s : Group A} {xs : List A} (x j : A)
      → IsSetOf eq Held s xs
      → Held x
      → Held j
      → (t : Group A) × (insert s x ≡ ok t)
        × IsSetOf eq Held t (added x xs)
        × (contains t j ≡ ok (eq x j || member eq Held j xs))
  contains-insert {s} {xs} x j h p q =
      let (v, e, set_of) = insert-IsSetOf x h p in
      (
        record s { v = v },
        e,
        set_of,
        contains-IsSetOf eq Held j set_of q ∙ ap ok (member-added x j xs h.compares p q),
      )

  -- An erasure keeps the comparator, and leaves a set of distinct elements.
  pub erase-IsSetOf :
      {s : Group A} {xs : List A} (x : A)
      → IsSetOf eq Held s xs
      → Held x
      → (v : Vector A) × (erase s x ≡ ok (record s { v = v }))
        × IsSetOf eq Held (record s { v = v }) (removed eq Held x xs)
  unfolding erase
  erase-IsSetOf {s} {xs} x h p =
      let (v, e, g) =
        erase_from-Holds eq Held (suc s.v.size) s x [] xs h.compares h.holds p h.held
          (omega (arith, h.holds.counted)) in
      (
        v,
        e,
        record {
          compares = h.compares;
          holds = g;
          held = AllHeld-removed x xs h.held;
          distinct = NoRepeat-removed x xs h.distinct;
        },
      )

  -- An erasure leaves a set of distinct elements without the erased one, and with all others
  -- that it held.
  pub contains-erase :
      {s : Group A} {xs : List A} (x j : A)
      → IsSetOf eq Held s xs
      → Held x
      → Held j
      → (t : Group A) × (erase s x ≡ ok t)
        × IsSetOf eq Held t (removed eq Held x xs)
        × (contains t j ≡ ok (if eq j x then false else member eq Held j xs))
  contains-erase {s} {xs} x j h p q =
      let (v, e, set_of) = erase-IsSetOf x h p in
      (
        record s { v = v },
        e,
        set_of,
        contains-IsSetOf eq Held j set_of q
            ∙ ap ok (member-removed eq Held j x xs h.compares q p h.held h.distinct),
      )
