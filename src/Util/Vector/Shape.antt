-- ===== src/Util/Vector/Shape.antt =====
-- A vector that holds a list: what each operation does to the list.
use librestserver.Util.Vector.{
  Vector, Destructor, read_slot, write_slot, init, grow, push_back, shift_down, erase,
}
use librestserver.Prelude.{
  ℕ, zero, suc, ◌+◌, ◌-◌, ◌*◌, ◌<◌, ◌≡◌, refl, ap, ◌∙◌, inl, inr, false, Option, none, some, List,
  [], ◌∷◌, ◌++◌, map, append_assoc, map-append, arith, ◌==◌, lt→ltb, ==_iff, Bool-cases, length,
  get_elem?, take, drop, replicate, length-append, length-drop, length-replicate, length-map,
  get_elem?-append_length, set-append_length, take_all, ok, ◌>>=◌,
}

module _ {A : Type 0} where
  -- The list stands in the first slots, and the block has as many slots as `capacity` says.
  pub record Holds (v : Vector A) (xs : List A) : Type 0 where
    pub unused : List (Option A)
    pub layout : v.slots ≡ map some xs ++ unused
    pub counted : v.size ≡ length xs
    pub block : v.capacity ≡ length v.slots
    pub room : 0 < v.capacity

  pub init-Holds : (d : Option Destructor) → Holds (init {A = A} d) []
  unfolding init
  init-Holds d = record {
    unused = none ∷ none ∷ [];
    layout = refl;
    counted = refl;
    block = refl;
    room = omega arith;
  }

  grow_room :
      {v : Vector A} {xs : List A}
      → Holds v xs
      → (v.size == v.capacity) ≡ false
      → v.size < v.capacity
  grow_room {v} {xs} h e = ground (
    arith,
    ap length h.layout,
    length-append (map some xs) h.unused,
    length-map {B = Option A} some xs,
    h.counted,
    h.block,
  )

  pub grow-Holds :
      {v : Vector A} {xs : List A}
      → Holds v xs
      → Holds (grow v) xs × ((grow v).size < (grow v).capacity)
  unfolding grow
  grow-Holds {v} {xs} h = elim (Bool-cases (v.size == v.capacity)) [
    | inl full ↦ rw full (
      record {
        unused = h.unused ++ replicate (v.capacity * 2 - length v.slots) none;
        layout =
            ap (λ s. s ++ replicate (v.capacity * 2 - length v.slots) none)
              (take_all (v.capacity * 2) v.slots (omega (arith, h.block)) ∙ h.layout)
            ∙ append_assoc (map some xs) h.unused _;
        counted = h.counted;
        block = ground (
          arith,
          length-append (take (v.capacity * 2) v.slots)
              (replicate (v.capacity * 2 - length v.slots) none),
          length-replicate {A = Option A} (v.capacity * 2 - length v.slots) none,
          take_all (v.capacity * 2) v.slots,
          h.block,
        );
        room = omega (arith, h.room);
      },
      omega (arith, (==_iff v.size v.capacity).0 full, h.room, h.counted),
    )
    | inr other ↦ rw other (h, grow_room h other)
  ]

  pub get_elem?-slots :
      (xs : List A) (u : List (Option A)) (i : ℕ) {x : A}
      → get_elem? xs i ≡ some x
      → get_elem? (map some xs ++ u) i ≡ some (some x)
  get_elem?-slots [] u i e = cc
  get_elem?-slots (y ∷ xs) u zero e = cc
  get_elem?-slots (y ∷ xs) u (suc i) e = get_elem?-slots xs u i e

  pub read_slot-Holds :
      {v : Vector A} {xs : List A} (i : ℕ) {x : A}
      → Holds v xs
      → get_elem? xs i ≡ some x
      → read_slot v.slots i ≡ ok x
  unfolding read_slot
  read_slot-Holds {v} {xs} i h e = rw (h.layout, get_elem?-slots xs h.unused i e)

  write_slot_end :
      (pre u : List (Option A)) (x : A)
      → 0 < length u
      → write_slot (pre ++ u) (length pre) x ≡ ok (pre ++ (some x ∷ drop 1 u))
  unfolding write_slot
  write_slot_end pre [] x h = absurd (omega arith)
  write_slot_end pre (y ∷ u) x h =
      rw (lt→ltb (length pre) (length (pre ++ (y ∷ u))) (omega (arith, length-append pre (y ∷ u))))
        (ap ok (set-append_length pre y (some x) u))

  pub push_back-Holds :
      {v : Vector A} {xs : List A} (x : A)
      → Holds v xs
      → (w : Vector A) × (push_back v x ≡ ok w) × Holds w (xs ++ (x ∷ []))
  unfolding push_back write_slot
  push_back-Holds {v} {xs} x h =
      let (g, lt) = grow-Holds h in
      let layout = map some xs ++ (some x ∷ drop 1 g.unused) in
      let measure : length (map {B = Option A} some xs) ≡ length xs = length-map some xs in
      let spare : 0 < length g.unused =
        omega
          (arith, ap length g.layout, length-append (map some xs) g.unused, g.counted, g.block) in
      let written : write_slot (grow v).slots (grow v).size x ≡ ok layout =
        rw (g.layout, g.counted, ← measure) (write_slot_end (map some xs) g.unused x spare) in
      (
        record (grow v) { slots = layout; size = (grow v).size + 1 },
        ap (λ m. m >>= λ s. ok (record (grow v) { slots = s; size = (grow v).size + 1 })) written,
        record {
          unused = drop 1 g.unused;
          layout = rw (map-append, append_assoc);
          counted = omega (arith, length-append xs (x ∷ []), g.counted);
          block = omega (
            arith,
            ap length g.layout,
            length-append (map some xs) g.unused,
            length-append (map some xs) (some x ∷ drop 1 g.unused),
            length-drop 1 g.unused,
            g.block,
          );
          room = g.room;
        },
      )

  -- One round of the shift: slot `length pre` gets what the next slot holds.
  shift_round :
      (pre : List (Option A)) (n : ℕ) (x y : A) (rest : List (Option A))
      → shift_down (suc n) (length pre) (pre ++ (some x ∷ some y ∷ rest))
        ≡ shift_down n (length (pre ++ (some y ∷ []))) ((pre ++ (some y ∷ [])) ++ (some y ∷ rest))
  unfolding shift_down read_slot
  shift_round pre n x y rest =
      let next : length pre + 1 ≡ length (pre ++ (some x ∷ [])) =
        omega (arith, length-append pre (some x ∷ [])) in
      let here : length pre + 1 ≡ length (pre ++ (some y ∷ [])) =
        omega (arith, length-append pre (some y ∷ [])) in
      let found : get_elem? (pre ++ (some x ∷ some y ∷ rest)) (length pre + 1) ≡ some (some y) =
        rw (next, ← append_assoc pre (some x ∷ []) (some y ∷ rest))
          (get_elem?-append_length (pre ++ (some x ∷ [])) (some y) rest) in
      rw found (
        rw (write_slot_end pre (some x ∷ some y ∷ rest) y (omega arith))
          (rw (here, append_assoc pre (some y ∷ []) (some y ∷ rest))))

  pub shift_down-slots :
      (pre : List (Option A)) (x : A) (ys : List A) (u : List (Option A))
      → (y : A) × (shift_down (length ys) (length pre) (pre ++ (some x ∷ (map some ys ++ u)))
          ≡ ok (pre ++ (map some ys ++ (some y ∷ u))))
  unfolding shift_down
  shift_down-slots pre x [] u = (x, refl)
  shift_down-slots pre x (y ∷ ys) u =
      let (z, e) = shift_down-slots (pre ++ (some y ∷ [])) y ys u in
      (
        z,
        shift_round pre (length ys) x y (map some ys ++ u)
            ∙ e
            ∙ ap ok (append_assoc pre (some y ∷ []) (map some ys ++ (some z ∷ u))),
      )

  -- Erasing the element behind `pre` from a vector that holds `pre`, `x` and `post` succeeds, and
  -- leaves `pre` and `post`.
  pub erase-Holds :
      {v : Vector A} (pre : List A) (x : A) (post : List A)
      → Holds v (pre ++ (x ∷ post))
      → (w : Vector A) × (erase v (length pre) ≡ ok w) × Holds w (pre ++ post)
  unfolding erase
  erase-Holds {v} pre x post h =
      let (z, shifted) = shift_down-slots (map some pre) x post h.unused in
      let slots = map some pre ++ (map some post ++ (some z ∷ h.unused)) in
      let at : length (map {B = Option A} some pre) ≡ length pre = length-map some pre in
      let layout : v.slots ≡ map some pre ++ (some x ∷ (map some post ++ h.unused)) =
        h.layout ∙ rw (map-append, append_assoc) in
      let total : v.size ≡ length pre + suc (length post) =
        h.counted ∙ length-append pre (x ∷ post) in
      let rounds : v.size - 1 - length pre ≡ length post = omega (arith, total) in
      let shift : shift_down (v.size - 1 - length pre) (length pre) v.slots ≡ ok slots =
        rw (rounds, layout, ← at) shifted in
      (
        record v { slots = slots; size = v.size - 1 },
        rw (lt→ltb (length pre) v.size (omega (arith, total)))
            (ap (λ m. m >>= λ s. ok (record v { slots = s; size = v.size - 1 })) shift),
        record {
          unused = some z ∷ h.unused;
          layout = rw (map-append, append_assoc);
          counted = omega (arith, total, length-append pre post);
          block = omega (
            arith,
            ap length layout,
            length-append (map some pre) (some x ∷ (map some post ++ h.unused)),
            length-append (map some pre) (map some post ++ (some z ∷ h.unused)),
            length-append (map some post) h.unused,
            length-append (map some post) (some z ∷ h.unused),
            h.block,
          );
          room = h.room;
        },
      )
