-- ===== src/Util/Map/Shape.antt =====
-- A map that holds a list of pairs, in the order of their insertion, and what find, insert and
-- erase make of the list. The comparator decides `eq` on the keys that may be held.
use librestserver.Util.Num.{Compares}
use librestserver.Util.Vector.{Vector}
use librestserver.Util.Vector.Shape.{Holds, read_slot-Holds, push_back-Holds}
use librestserver.Util.Map.{
  Table, same_key, contains_from, contains, find_from, find, insert_new, insert,
}
use librestserver.Prelude.{
  ℕ, zero, suc, ◌+◌, ◌<◌, ◌≡◌, refl, sym, ap, ◌∙◌, inl, inr, Bool, true, false, Option, none, some,
  List, [], ◌∷◌, ◌++◌, append_assoc, arith, ltb, if◌then◌else◌, Bool-cases, length, get_elem?,
  length-append, get_elem?-append_length, ok,
}

module _ {A : Type 0} where
  abbrev pub flat : List (A × A) → List A
  flat [] = []
  flat ((k, x) ∷ ps) = k ∷ x ∷ flat ps

  abbrev pub AllKeys : (A → Type 0) → List (A × A) → Type 0
  AllKeys P [] = Unit
  AllKeys P ((k, x) ∷ ps) = P k × AllKeys P ps

  pub flat-append : (ps qs : List (A × A)) → flat (ps ++ qs) ≡ flat ps ++ flat qs
  flat-append [] qs = refl
  flat-append ((k, x) ∷ ps) qs = ap (λ l. k ∷ x ∷ l) (flat-append ps qs)

  pub AllKeys-append :
      (P : A → Type 0) (ps qs : List (A × A)) → AllKeys P ps → AllKeys P qs → AllKeys P (ps ++ qs)
  AllKeys-append P [] qs h k = k
  AllKeys-append P ((a, x) ∷ ps) qs h k = (h.0, AllKeys-append P ps qs h.1 k)

  pub get_second :
      (pre : List A) (k x : A) (rest : List A)
      → get_elem? (pre ++ (k ∷ x ∷ rest)) (length pre + 1) ≡ some x
  get_second [] k x rest = refl
  get_second (y ∷ pre) k x rest =
      let e : length (y ∷ pre) + 1 ≡ suc (length pre + 1) = omega arith in
      rw e (get_second pre k x rest)

module _ {A : Type 0} (eq : A → A → Bool) where
  -- The value of the first pair with the key.
  unfoldable pub lookup : A → List (A × A) → Option A
  lookup key [] = none
  lookup key ((k, x) ∷ ps) = if eq key k then some x else lookup key ps

  unfoldable pub has : A → List (A × A) → Bool
  has key [] = false
  has key ((k, x) ∷ ps) = if eq key k then true else has key ps

  pub lookup-has : (key : A) (ps : List (A × A)) → has key ps ≡ false → lookup key ps ≡ none
  unfolding lookup has
  lookup-has key [] h = refl
  lookup-has key ((k, x) ∷ ps) h = ground (arith, lookup-has key ps)

module _ {A : Type 0} (eq : A → A → Bool) (Held : A → Type 0) where
  -- The map holds these pairs, and its comparator decides `eq` on their keys.
  pub record Represents (m : Table A) (ps : List (A × A)) : Type 0 where
    pub compares : Compares m.comparator eq Held
    pub holds : Holds m.v (flat ps)
    pub keys : AllKeys Held ps

  pub same_key-Holds :
      (m : Table A) {key k : A} (pre rest : List A)
      → Compares m.comparator eq Held
      → Holds m.v (pre ++ (k ∷ rest))
      → Held key
      → Held k
      → same_key m key (length pre) ≡ ok (eq key k)
  unfolding same_key
  same_key-Holds m {key} {k} pre rest c h p q =
      let (z, e, f) = c.returns key k p q in
      rw (read_slot-Holds (length pre) h (get_elem?-append_length pre k rest)) (rw (e, f))

  -- Moving one pair from what is left to what was passed.
  pub advance :
      {v : Vector A} (pre : List A) (k x : A) (rest : List A)
      → Holds v (pre ++ (k ∷ x ∷ rest))
      → Holds v ((pre ++ (k ∷ x ∷ [])) ++ rest) × (length pre + 2 ≡ length (pre ++ (k ∷ x ∷ [])))
  advance pre k x rest h =
      (rw (append_assoc pre (k ∷ x ∷ []) rest) h, omega (arith, length-append pre (k ∷ x ∷ [])))

  pub in_range :
      {v : Vector A} (pre rest : List A) → Holds v (pre ++ rest) → v.size ≡ length pre + length rest
  in_range pre rest h = h.counted ∙ length-append pre rest

  find_from-Holds :
      (fuel : ℕ) (m : Table A) (key : A) (pre : List A) (ps : List (A × A))
      → Compares m.comparator eq Held
      → Holds m.v (pre ++ flat ps)
      → Held key
      → AllKeys Held ps
      → length (flat ps) < fuel
      → find_from fuel m key (length pre) ≡ ok (lookup eq key ps)
  unfolding find_from lookup
  find_from-Holds zero m key pre ps c h p q lt = absurd (omega arith)
  find_from-Holds (suc fuel) m key pre [] c h p q lt =
      let past : ltb (length pre) m.v.size ≡ false = ground (arith, in_range pre [] h) in
      rw (past, find_from)
  find_from-Holds (suc fuel) m key pre ((k, x) ∷ ps) c h p q lt =
      let inside : ltb (length pre) m.v.size ≡ true =
        ground (arith, in_range pre (k ∷ x ∷ flat ps) h) in
      let (h', e) = advance pre k x (flat ps) h in
      let later = find_from-Holds fuel m key (pre ++ (k ∷ x ∷ [])) ps c h' p q.1 (omega arith) in
      let found : get_elem? (pre ++ (k ∷ x ∷ flat ps)) (length pre + 1) ≡ some x =
        get_second pre k x (flat ps) in
      rw (inside, find_from, same_key-Holds m pre (x ∷ flat ps) c h p q.0)
        (elim (Bool-cases (eq key k)) [
          | inl hit ↦ rw hit (rw (read_slot-Holds (length pre + 1) h found))
          | inr miss ↦ rw (miss, e) later
        ])

  contains_from-Holds :
      (fuel : ℕ) (m : Table A) (key : A) (pre : List A) (ps : List (A × A))
      → Compares m.comparator eq Held
      → Holds m.v (pre ++ flat ps)
      → Held key
      → AllKeys Held ps
      → length (flat ps) < fuel
      → contains_from fuel m key (length pre) ≡ ok (has eq key ps)
  unfolding contains_from has
  contains_from-Holds zero m key pre ps c h p q lt = absurd (omega arith)
  contains_from-Holds (suc fuel) m key pre [] c h p q lt =
      let past : ltb (length pre) m.v.size ≡ false = ground (arith, in_range pre [] h) in
      rw (past, contains_from)
  contains_from-Holds (suc fuel) m key pre ((k, x) ∷ ps) c h p q lt =
      let inside : ltb (length pre) m.v.size ≡ true =
        ground (arith, in_range pre (k ∷ x ∷ flat ps) h) in
      let (h', e) = advance pre k x (flat ps) h in
      let later =
        contains_from-Holds fuel m key (pre ++ (k ∷ x ∷ [])) ps c h' p q.1 (omega arith) in
      rw (inside, contains_from, same_key-Holds m pre (x ∷ flat ps) c h p q.0)
        (elim (Bool-cases (eq key k)) [ inl hit ↦ rw hit | inr miss ↦ rw (miss, e) later ])

  -- The search of a map finds the value of the first pair with the key, and nothing else.
  pub find-Represents :
      {m : Table A} {ps : List (A × A)} (key : A)
      → Represents m ps
      → Held key
      → find m key ≡ ok (lookup eq key ps)
  unfolding find
  find-Represents {m} {ps} key r p =
      find_from-Holds (suc m.v.size) m key [] ps r.compares r.holds p r.keys
        (omega (arith, r.holds.counted))

  pub contains-Represents :
      {m : Table A} {ps : List (A × A)} (key : A)
      → Represents m ps
      → Held key
      → contains m key ≡ ok (has eq key ps)
  unfolding contains
  contains-Represents {m} {ps} key r p =
      contains_from-Holds (suc m.v.size) m key [] ps r.compares r.holds p r.keys
        (omega (arith, r.holds.counted))

  -- What an insertion makes of the pairs: a key that is there keeps its old value.
  abbrev pub inserted : A → A → List (A × A) → List (A × A)
  inserted key x ps = if has eq key ps then ps else ps ++ ((key, x) ∷ [])

  pub insert_new-Represents :
      {m : Table A} {ps : List (A × A)} (key x : A)
      → Represents m ps
      → Held key
      → (n : Table A) × (insert_new m key x ≡ ok n) × Represents n (ps ++ ((key, x) ∷ []))
  unfolding insert_new
  insert_new-Represents {m} {ps} key x r p =
      let (v, e, h) = push_back-Holds key r.holds in
      let (w, f, g) = push_back-Holds x h in
      let all : flat ps ++ (key ∷ []) ++ (x ∷ []) ≡ flat (ps ++ ((key, x) ∷ [])) =
        append_assoc (flat ps) (key ∷ []) (x ∷ []) ∙ sym (flat-append ps ((key, x) ∷ [])) in
      (
        record m { v = w },
        rw e (rw f),
        record {
          compares = r.compares;
          holds = rw all at g;
          keys = AllKeys-append Held ps ((key, x) ∷ []) r.keys (p, tt);
        },
      )

  pub insert-Represents :
      {m : Table A} {ps : List (A × A)} (key x : A)
      → Represents m ps
      → Held key
      → (n : Table A) × (insert m key x ≡ ok n) × Represents n (inserted key x ps)
  unfolding insert
  insert-Represents {m} {ps} key x r p = elim (Bool-cases (has eq key ps)) [
    | inl old ↦ (m, rw (contains-Represents key r p) (rw old), rw old r)
    | inr new ↦
        let (n, e, s) = insert_new-Represents key x r p in
        (n, rw (contains-Represents key r p) (rw new e), rw new s)
  ]
