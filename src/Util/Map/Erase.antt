-- ===== src/Util/Map/Erase.antt =====
-- RST_map_erase on a map with distinct keys: the loop goes on past the pair that it erased, one
-- pair too far, which distinct keys make harmless.
use librestserver.Util.Num.{Compares}
use librestserver.Util.Vector.{Vector, Destructor, Call, element}
use librestserver.Util.Vector.Shape.{Holds, read_slot-Holds, erase-Holds}
use librestserver.Util.Map.{Table, key_call, value_call, erase_pair, erase_from, erase}
use librestserver.Util.Map.Shape.{flat, AllKeys, has, Represents, same_key-Holds, advance, in_range}
use librestserver.Prelude.{
  ℕ, zero, suc, ◌+◌, ◌<◌, ◌≡◌, refl, ap, ◌∙◌, inl, inr, Bool, true, false, Option, none, some, List,
  [], ◌∷◌, ◌++◌, append_assoc, append-nil, arith, ltb, if◌then◌else◌, Bool-cases, length,
  get_elem?-append_length, Result, ok, ℤ,
}

module _ {A : Type 0} (eq : A → A → Bool) where
  -- No key stands twice.
  abbrev pub Distinct : List (A × A) → Type 0
  Distinct [] = Unit
  Distinct ((k, x) ∷ ps) = (has eq k ps ≡ false) × Distinct ps

  -- The pairs without the first one that has the key.
  unfoldable pub without : A → List (A × A) → List (A × A)
  without key [] = []
  without key ((k, x) ∷ ps) = if eq key k then ps else (k, x) ∷ without key ps

-- The call of a value destructor.
abbrev pub value_calls : {A : Type 0} → Option Destructor → A → List (Call A)
value_calls none x = []
value_calls (some d) x = (d, element x) ∷ []

module _ {A : Type 0} (eq : A → A → Bool) where
  -- The destructor calls of an erasure, for pairs that start at slot `i`.
  unfoldable pub erased_calls :
      Option Destructor → Option Destructor → A → ℕ → List (A × A) → List (Call A)
  erased_calls kd vd key i [] = []
  erased_calls kd vd key i ((k, x) ∷ ps) =
      if eq key k then key_call kd i ++ value_calls vd x else erased_calls kd vd key (i + 2) ps

module _ {A : Type 0} (eq : A → A → Bool) (Held : A → Type 0) where
  value_call-Holds :
      (d : Option Destructor) {v : Vector A} (pre : List A) (x : A) (rest : List A)
      → Holds v (pre ++ (x ∷ rest))
      → value_call d v (length pre) ≡ ok (value_calls d x)
  unfolding value_call
  value_call-Holds none pre x rest h = refl
  value_call-Holds (some d) pre x rest h =
      rw (read_slot-Holds (length pre) h (get_elem?-append_length pre x rest))

  erase_pair-Holds :
      (m : Table A) (pre : List A) (k x : A) (rest : List A)
      → Holds m.v (pre ++ (k ∷ x ∷ rest))
      → (w : Vector A) × (erase_pair m (length pre)
          ≡ ok (
            record m { v = w },
            key_call m.key_destructor (length pre) ++ value_calls m.value_destructor x,
          ))
        × Holds w (pre ++ rest)
  unfolding erase_pair
  erase_pair-Holds m pre k x rest h =
      let (v, e, g) = erase-Holds pre k (x ∷ rest) h in
      let (w, f, r) = erase-Holds pre x rest g in
      (w, rw e (rw (value_call-Holds m.value_destructor pre x rest g) (rw f)), r)

  -- Nothing is erased where the key is absent.
  erase_from_absent :
      (fuel : ℕ) (m : Table A) (key : A) (pre : List A) (ps : List (A × A))
      → Compares m.comparator eq Held
      → Holds m.v (pre ++ flat ps)
      → Held key
      → AllKeys Held ps
      → length (flat ps) < fuel
      → has eq key ps ≡ false
      → erase_from fuel m key (length pre) ≡ ok (m, [])
  unfolding erase_from has
  erase_from_absent zero m key pre ps c h p q lt a = absurd (omega arith)
  erase_from_absent (suc fuel) m key pre [] c h p q lt a =
      let past : ltb (length pre) m.v.size ≡ false = ground (arith, in_range eq Held pre [] h) in
      rw (past, erase_from)
  erase_from_absent (suc fuel) m key pre ((k, x) ∷ ps) c h p q lt a =
      let inside : ltb (length pre) m.v.size ≡ true =
        ground (arith, in_range eq Held pre (k ∷ x ∷ flat ps) h) in
      let (h', e) = advance eq Held pre k x (flat ps) h in
      let miss : eq key k ≡ false = ground arith in
      let gone : has eq key ps ≡ false = ground arith in
      rw (inside, erase_from, same_key-Holds eq Held m pre (x ∷ flat ps) c h p q.0)
        (rw (miss, e)
          (erase_from_absent fuel m key (pre ++ (k ∷ x ∷ [])) ps c h' p q.1 (omega arith) gone))

  -- The round after an erasure skips a pair.
  after_erase :
      (fuel : ℕ) (m : Table A) (key : A) (pre : List A) (ps : List (A × A))
      → Compares m.comparator eq Held
      → Holds m.v (pre ++ flat ps)
      → Held key
      → AllKeys Held ps
      → length (flat ps) < fuel
      → has eq key ps ≡ false
      → erase_from fuel m key (length pre + 2) ≡ ok (m, [])
  unfolding erase_from has
  after_erase zero m key pre ps c h p q lt a = absurd (omega arith)
  after_erase (suc fuel) m key pre [] c h p q lt a =
      let past : ltb (length pre + 2) m.v.size ≡ false =
        ground (arith, in_range eq Held pre [] h) in
      rw (past, erase_from)
  after_erase (suc fuel) m key pre ((k, x) ∷ ps) c h p q lt a =
      let (h', e) = advance eq Held pre k x (flat ps) h in
      let gone : has eq key ps ≡ false = ground arith in
      rw e
        (erase_from_absent (suc fuel) m key (pre ++ (k ∷ x ∷ [])) ps c h' p q.1 (omega arith) gone)

  pub has-eq :
      {cmp : A → A → Result ℤ} {key k : A} (ps : List (A × A))
      → Compares cmp eq Held
      → Held key
      → Held k
      → eq key k ≡ true
      → has eq key ps ≡ has eq k ps
  has-eq {key = key} {k = k} ps c p q e = ap (λ j. has eq j ps) ((c.equal_iff key k p q).0 e)

  erase_from-Holds :
      (fuel : ℕ) (m : Table A) (key : A) (pre : List A) (ps : List (A × A))
      → Compares m.comparator eq Held
      → Holds m.v (pre ++ flat ps)
      → Held key
      → AllKeys Held ps
      → Distinct eq ps
      → length (flat ps) < fuel
      → (w : Vector A) × (erase_from fuel m key (length pre)
          ≡ ok (
            record m { v = w },
            erased_calls eq m.key_destructor m.value_destructor key (length pre) ps,
          ))
        × Holds w (pre ++ flat (without eq key ps))
  unfolding erase_from without erased_calls
  erase_from-Holds zero m key pre ps c h p q d lt = absurd (omega arith)
  erase_from-Holds (suc fuel) m key pre [] c h p q d lt =
      let past : ltb (length pre) m.v.size ≡ false = ground (arith, in_range eq Held pre [] h) in
      (m.v, rw (past, erase_from), h)
  erase_from-Holds (suc fuel) m key pre ((k, x) ∷ ps) c h p q d lt =
      let inside : ltb (length pre) m.v.size ≡ true =
        ground (arith, in_range eq Held pre (k ∷ x ∷ flat ps) h) in
      let (h', e) = advance eq Held pre k x (flat ps) h in
      elim (Bool-cases (eq key k)) [
        | inl hit ↦
            let (w, f, g) = erase_pair-Holds m pre k x (flat ps) h in
            let rest =
              after_erase fuel (record m { v = w }) key pre ps c g p q.1 (omega arith)
                (has-eq ps c p q.0 hit ∙ d.0) in
            (
              w,
              rw (inside, erase_from, same_key-Holds eq Held m pre (x ∷ flat ps) c h p q.0)
                  (rw hit (rw f (rw rest (rw append-nil)))),
              rw hit g,
            )
        | inr miss ↦
            let (w, f, g) =
              erase_from-Holds fuel m key (pre ++ (k ∷ x ∷ [])) ps c h' p q.1 d.1 (omega arith) in
            (
              w,
              rw (inside, erase_from, same_key-Holds eq Held m pre (x ∷ flat ps) c h p q.0)
                  (rw (miss, e) f),
              rw miss (rw (append_assoc pre (k ∷ x ∷ []) (flat (without eq key ps))) at g),
            )
      ]

  AllKeys-without :
      (key : A) (ps : List (A × A)) → AllKeys Held ps → AllKeys Held (without eq key ps)
  unfolding without
  AllKeys-without key [] q = tt
  AllKeys-without key ((k, x) ∷ ps) q = elim (Bool-cases (eq key k)) [
    | inl hit ↦ rw hit q.1
    | inr miss ↦ rw miss (q.0, AllKeys-without key ps q.1)
  ]

  -- On distinct keys an erasure takes out the pair with the key, wherever it stands, and its
  -- value goes to the value destructor.
  pub erase-Represents :
      {m : Table A} {ps : List (A × A)} (key : A)
      → Represents eq Held m ps
      → Distinct eq ps
      → Held key
      → (n : Table A) × (erase m key
          ≡ ok (n, erased_calls eq m.key_destructor m.value_destructor key 0 ps))
        × Represents eq Held n (without eq key ps)
  unfolding erase
  erase-Represents {m} {ps} key r d p =
      let (w, e, h) =
        erase_from-Holds (suc m.v.size) m key [] ps r.compares r.holds p r.keys d
          (omega (arith, r.holds.counted)) in
      (
        record m { v = w },
        e,
        record { compares = r.compares; holds = h; keys = AllKeys-without key ps r.keys },
      )
