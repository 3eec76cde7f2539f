-- ===== src/Util/Map/Release.antt =====
-- The release of a map of strings.
use librestserver.Util.Num.{CString}
use librestserver.Util.Vector.{Vector, Destructor, Call, element, read_slot, release, destroy_all}
use librestserver.Util.Vector
use librestserver.Util.Vector.Shape.{Holds, read_slot-Holds}
use librestserver.Util.Free.{free_string, run_calls}
use librestserver.Util.Map.{Table, element_call, release_from}
use librestserver.Util.Map
use librestserver.Util.Map.Shape.{flat, get_second}
use librestserver.Prelude.{
  ℕ, zero, suc, ◌+◌, ◌<◌, ◌≡◌, refl, ap, ◌∙◌, true, false, Option, none, some, List, [], ◌∷◌, ◌++◌,
  append_assoc, append-nil, arith, ltb, length, get_elem?, length-append, get_elem?-append_length,
  ok, ◌>>=◌,
}

-- A pointer that is not null.
abbrev pub IsString : CString → Type 0
IsString c = (s : List ℕ) × (c ≡ some s)

abbrev pub AllStrings : List (CString × CString) → Type 0
AllStrings [] = Unit
AllStrings ((k, x) ∷ ps) = (IsString k × IsString x) × AllStrings ps

-- The map holds no null pointer.
pub record IsReleasable (m : Table CString) : Type 0 where
  pub pairs : List (CString × CString)
  pub stored : Holds m.v (flat pairs)
  pub strings : AllStrings pairs

run_calls-append :
    (a b : List (Call CString))
    → run_calls a ≡ ok tt
    → run_calls b ≡ ok tt
    → run_calls (a ++ b) ≡ ok tt
unfolding run_calls free_string
run_calls-append [] b h k = k
run_calls-append ((d, element none) ∷ a) b h k = cc
run_calls-append ((d, element (some s)) ∷ a) b h k = run_calls-append a b h k
run_calls-append ((d, Vector.slot i) ∷ a) b h k = cc

element_call-IsString :
    (d : Option Destructor) (v : Vector CString) (xs : List CString) (i : ℕ) (x : CString)
    → Holds v xs
    → get_elem? xs i ≡ some x
    → IsString x
    → (calls : List (Call CString)) × (element_call d v.slots i ≡ ok calls)
      × (run_calls calls ≡ ok tt)
unfolding run_calls free_string
element_call-IsString none v xs i x h e p = ([], refl, refl)
element_call-IsString (some d) v xs i x h e (s, f) =
    ((d, element x) ∷ [], rw (read_slot-Holds i h e) refl, rw f refl)

release_from-AllStrings :
    (fuel : ℕ) (m : Table CString) (pre : List CString) (ps : List (CString × CString))
    → Holds m.v (pre ++ flat ps)
    → AllStrings ps
    → length (flat ps) < fuel
    → (calls : List (Call CString)) × (release_from fuel m (length pre) ≡ ok calls)
      × (run_calls calls ≡ ok tt)
unfolding release_from
release_from-AllStrings zero m pre ps h p lt = absurd (omega arith)
release_from-AllStrings (suc fuel) m pre [] h p lt =
    let past : ltb (length pre) m.v.size ≡ false =
      ground (arith, h.counted, length-append pre []) in
    ([], rw (past, release_from), unfold run_calls in refl)
release_from-AllStrings (suc fuel) m pre ((k, x) ∷ ps) h p lt =
    let inside : ltb (length pre) m.v.size ≡ true =
      ground (arith, h.counted, length-append pre (k ∷ x ∷ flat ps)) in
    let h' : Holds m.v ((pre ++ (k ∷ x ∷ [])) ++ flat ps) =
      rw (append_assoc pre (k ∷ x ∷ []) (flat ps)) h in
    let e : length pre + 2 ≡ length (pre ++ (k ∷ x ∷ [])) =
      omega (arith, length-append pre (k ∷ x ∷ [])) in
    let (a, e1, r1) =
      element_call-IsString m.key_destructor m.v (pre ++ flat ((k, x) ∷ ps)) (length pre) k h
        (get_elem?-append_length pre k (x ∷ flat ps)) p.0.0 in
    let (b, e2, r2) =
      element_call-IsString m.value_destructor m.v (pre ++ flat ((k, x) ∷ ps)) (length pre + 1) x h
        (get_second pre k x (flat ps)) p.0.1 in
    let (c, e3, r3) =
      release_from-AllStrings fuel m (pre ++ (k ∷ x ∷ [])) ps h' p.1 (omega arith) in
    (
      a ++ (b ++ c),
      rw (inside, release_from) (rw e1 (rw e2 (rw e (rw e3 refl)))),
      run_calls-append a (b ++ c) r1 (run_calls-append b c r2 r3),
    )

-- A map without null pointers is released.
pub release-IsReleasable :
    (m : Table CString) → IsReleasable m → (Map.release m >>= run_calls) ≡ ok tt
unfolding Map.release Vector.release destroy_all
release-IsReleasable m h =
    let (calls, e, r) =
      release_from-AllStrings (suc m.v.size) m [] h.pairs h.stored h.strings
        (omega (arith, h.stored.counted)) in
    rw e (ap run_calls (append-nil calls) ∙ r)
