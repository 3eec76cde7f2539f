-- ===== src/Util/Map/Laws.antt =====
-- The pairs of a map as a dictionary: what a search finds after an insertion or an erasure.
use librestserver.Util.Num.{Compares}
use librestserver.Util.Map.{Table, init, find, insert, erase}
use librestserver.Util.Vector.{Destructor}
use librestserver.Util.Vector.Shape.{init-Holds}
use librestserver.Util.Map.Shape.{
  AllKeys, lookup, has, inserted, Represents, lookup-has, find-Represents, insert-Represents,
}
use librestserver.Util.Map.Erase.{Distinct, without, erased_calls, erase-Represents, has-eq}
use librestserver.Prelude.{
  ◌≡◌, refl, ap, ◌∙◌, inl, inr, Bool, true, false, ◌||◌, Option, none, some, List, [], ◌∷◌, ◌++◌,
  arith, if◌then◌else◌, Bool-cases, Result, ok, ℤ,
}

module _ {A : Type 0} (eq : A → A → Bool) (Held : A → Type 0) {cmp : A → A → Result ℤ}
    (c : Compares cmp eq Held) where
  eq_self : (k : A) → Held k → eq k k ≡ true
  eq_self k p = (c.equal_iff k k p p).1 refl

  lookup-append :
      (j : A) (ps qs : List (A × A))
      → lookup eq j (ps ++ qs) ≡ (if has eq j ps then lookup eq j ps else lookup eq j qs)
  unfolding lookup has
  lookup-append j [] qs = refl
  lookup-append j ((k, x) ∷ ps) qs = ground (arith, lookup-append j ps qs)

  has-append : (j : A) (ps qs : List (A × A)) → has eq j (ps ++ qs) ≡ (has eq j ps || has eq j qs)
  unfolding has
  has-append j [] qs = refl
  has-append j ((k, x) ∷ ps) qs = ground (arith, has-append j ps qs)

  -- An insertion adds the key if it is new, and changes no other entry.
  pub lookup-inserted :
      (j key x : A) (ps : List (A × A))
      → lookup eq j (inserted eq Held key x ps) ≡ (
          if has eq key ps
          then lookup eq j ps
          else if has eq j ps
          then lookup eq j ps
          else if eq j key
          then some x
          else none)
  lookup-inserted j key x ps = elim (Bool-cases (has eq key ps)) [
    | inl old ↦ rw old
    | inr new ↦ rw new (lookup-append j ps ((key, x) ∷ []) ∙ unfold lookup in refl)
  ]

  has-without :
      (j key : A) (ps : List (A × A)) → has eq j ps ≡ false → has eq j (without eq key ps) ≡ false
  unfolding has without
  has-without j key [] h = refl
  has-without j key ((k, x) ∷ ps) h = ground (arith, has-without j key ps)

  pub Distinct-without :
      (key : A) (ps : List (A × A)) → Distinct eq ps → Distinct eq (without eq key ps)
  unfolding without
  Distinct-without key [] d = tt
  Distinct-without key ((k, x) ∷ ps) d = elim (Bool-cases (eq key k)) [
    | inl hit ↦ rw hit d.1
    | inr miss ↦ rw miss (has-without k key ps d.0, Distinct-without key ps d.1)
  ]

  eq_flip : (j k : A) → Held j → Held k → eq j k ≡ false → eq k j ≡ false
  eq_flip j k p q h = ground (arith, (c.equal_iff k j q p).0, (c.equal_iff j k p q).1)

  Distinct-append :
      (key x : A) (ps : List (A × A))
      → Held key
      → AllKeys Held ps
      → has eq key ps ≡ false
      → Distinct eq ps
      → Distinct eq (ps ++ ((key, x) ∷ []))
  unfolding has
  Distinct-append key x [] p q h d = (refl, tt)
  Distinct-append key x ((k, y) ∷ ps) p q h d =
      let differ : eq key k ≡ false = ground arith in
      let absent : has eq key ps ≡ false = ground arith in
      (
        has-append k ps ((key, x) ∷ []) ∙ rw (d.0, eq_flip key k p q.0 differ),
        Distinct-append key x ps p q.1 absent d.1,
      )

  pub lookup-without :
      (j key : A) (ps : List (A × A))
      → Held j
      → Held key
      → AllKeys Held ps
      → Distinct eq ps
      → lookup eq j (without eq key ps) ≡ (if eq key j then none else lookup eq j ps)
  unfolding lookup without
  lookup-without j key [] p q r d = ground arith
  lookup-without j key ((k, x) ∷ ps) p q r d =
      let key_k = c.equal_iff key k q r.0 in
      let j_k = c.equal_iff j k p r.0 in
      let key_j = c.equal_iff key j q p in
      let absent : eq j k ≡ true → lookup eq j ps ≡ none =
        λ e. lookup-has eq j ps (has-eq eq Held ps c p r.0 e ∙ d.0) in
      elim (Bool-cases (eq key k)) [
        | inl hit ↦
            rw (hit) (ground (arith, key_k.0, key_k.1, j_k.0, j_k.1, key_j.0, key_j.1, absent))
        | inr miss ↦ rw (miss) (
            ground (
              arith,
              key_k.0,
              key_k.1,
              j_k.0,
              j_k.1,
              key_j.0,
              key_j.1,
              lookup-without j key ps p q r.1 d.1,
            ))
      ]

  pub Distinct-inserted :
      (key x : A) (ps : List (A × A))
      → Held key
      → AllKeys Held ps
      → Distinct eq ps
      → Distinct eq (inserted eq Held key x ps)
  Distinct-inserted key x ps p q d = elim (Bool-cases (has eq key ps)) [
    | inl old ↦ rw old d
    | inr new ↦ rw new (Distinct-append key x ps p q new d)
  ]

module _ {A : Type 0} (eq : A → A → Bool) (Held : A → Type 0) where
  -- The map holds these pairs, under distinct keys.
  pub record IsMap (m : Table A) (ps : List (A × A)) : Type 0 where
    pub represents : Represents eq Held m ps
    pub distinct : Distinct eq ps

  pub init-IsMap :
      (cmp : A → A → Result ℤ) (kd vd : Option Destructor)
      → Compares cmp eq Held
      → IsMap (init cmp kd vd) []
  unfolding init
  init-IsMap cmp kd vd c = record {
    represents = record { compares = c; holds = init-Holds none; keys = tt };
    distinct = tt;
  }

  -- An insertion leaves a map with distinct keys again, and a search in it finds what it found
  -- before, and the new value if the key was absent: a key that is there keeps its old value.
  pub find-insert :
      {m : Table A} {ps : List (A × A)} (key x j : A)
      → IsMap m ps
      → Held key
      → Held j
      → (n : Table A) × (insert m key x ≡ ok n)
        × IsMap n (inserted eq Held key x ps)
        × (find n j
            ≡ ok (
                if has eq key ps
                then lookup eq j ps
                else if has eq j ps
                then lookup eq j ps
                else if eq j key
                then some x
                else none))
  find-insert {m} {ps} key x j h p q =
      let (n, e, r) = insert-Represents eq Held key x h.represents p in
      (
        n,
        e,
        record {
          represents = r;
          distinct =
              Distinct-inserted eq Held h.represents.compares key x ps p h.represents.keys
                h.distinct;
        },
        find-Represents eq Held j r q
            ∙ ap ok (lookup-inserted eq Held h.represents.compares j key x ps),
      )

  -- An erasure leaves a map with distinct keys again; a search in it finds nothing under the
  -- erased key, and under any other key what it found before.
  pub find-erase :
      {m : Table A} {ps : List (A × A)} (key j : A)
      → IsMap m ps
      → Held key
      → Held j
      → (n : Table A) × (erase m key
          ≡ ok (n, erased_calls eq m.key_destructor m.value_destructor key 0 ps))
        × IsMap n (without eq key ps)
        × (find n j ≡ ok (if eq key j then none else lookup eq j ps))
  find-erase {m} {ps} key j h p q =
      let c = h.represents.compares in
      let (n, e, r) = erase-Represents eq Held key h.represents h.distinct p in
      (
        n,
        e,
        record { represents = r; distinct = Distinct-without eq Held c key ps h.distinct },
        find-Represents eq Held j r q
            ∙ ap ok (lookup-without eq Held c j key ps q p h.represents.keys h.distinct),
      )
