-- ===== src/Client/Answer/Routing.antt =====
-- Which resource answers a request.
use librestserver.Libc.{Block, strcmp}
use librestserver.Libc.Strings.{IsText, same_text, is_zero-strcmp}
use librestserver.Util.Vector.{Vector, begin, next, end, value}
use librestserver.Util.Vector.Shape.{Holds, read_slot-Holds}
use librestserver.Http.Request.{Request}
use librestserver.Http.Resource.{Resource}
use librestserver.Client.State.{Site}
use librestserver.Client.Answer.{same_method, matches, find_from, find_resource}
use librestserver.Prelude.{
  ℕ, zero, suc, ◌+◌, ◌<◌, ◌≡◌, refl, ap, ◌∙◌, inl, inr, Bool, true, false, ◌&&◌, Option, none, some,
  List, [], ◌∷◌, ◌++◌, append_assoc, arith, leb, if◌then◌else◌, Bool-cases, length, length-append,
  get_elem?-append_length, ok, ◌>>=◌, is_zero,
}

-- `text` gives the paths of the resources.
module _ (text : Resource → Block) where
  abbrev pub HasPaths : List Resource → Type 0
  HasPaths [] = Unit
  HasPaths (r ∷ rs) = ((r.path ≡ text r ++ (0 ∷ [])) × IsText (text r)) × HasPaths rs

  abbrev pub serves : Resource → Request → Block → Bool
  serves r q path = same_method r.method q.method && same_text (text r) path

  -- The first resource of a list that serves the request.
  unfoldable pub first_that_serves : List Resource → Request → Block → Option Resource
  first_that_serves [] q path = none
  first_that_serves (r ∷ rs) q path =
      if serves r q path then some r else first_that_serves rs q path

  matches-serves :
      (r : Resource) (q : Request) (path : Block)
      → q.path ≡ some (path ++ (0 ∷ []))
      → IsText path
      → (r.path ≡ text r ++ (0 ∷ [])) × IsText (text r)
      → matches r q ≡ ok (serves r q path)
  unfolding matches
  matches-serves r q path e h (f, k) = elim (Bool-cases (same_method r.method q.method)) [
    | inl same ↦
        let compared : (strcmp r.path (path ++ (0 ∷ [])) >>= λ z. ok (is_zero z))
            ≡ ok (same_text (text r) path) =
          ap (λ p. strcmp p (path ++ (0 ∷ [])) >>= λ z. ok (is_zero z)) f
          ∙ is_zero-strcmp (text r) path [] [] k h in
        rw same (rw e compared)
    | inr other ↦ rw (other) refl
  ]

  find_from-Holds :
      (fuel : ℕ) (v : Vector Resource) (q : Request) (path : Block) (pre rs : List Resource)
      → Holds v (pre ++ rs)
      → q.path ≡ some (path ++ (0 ∷ []))
      → IsText path
      → HasPaths rs
      → length rs < fuel
      → find_from fuel v q (record { k = length pre }) ≡ ok (first_that_serves rs q path)
  unfolding find_from first_that_serves end value next
  find_from-Holds zero v q path pre rs h e p paths lt = absurd (omega arith)
  find_from-Holds (suc fuel) v q path pre [] h e p paths lt =
      let past : leb v.size (length pre) ≡ true = ground (arith, h.counted, length-append pre []) in
      rw (past, find_from)
  find_from-Holds (suc fuel) v q path pre (r ∷ rs) h e p paths lt =
      let inside : leb v.size (length pre) ≡ false =
        ground (arith, h.counted, length-append pre (r ∷ rs)) in
      let h' : Holds v ((pre ++ (r ∷ [])) ++ rs) = rw (append_assoc pre (r ∷ []) rs) h in
      let place : length pre + 1 ≡ length (pre ++ (r ∷ [])) =
        omega (arith, length-append pre (r ∷ [])) in
      rw (inside, find_from)
        (rw (read_slot-Holds (length pre) h (get_elem?-append_length pre r rs)) (
          rw (matches-serves r q path e p paths.0) (elim (Bool-cases (serves r q path)) [
            | inl hit ↦ rw hit refl
            | inr miss ↦ rw (miss) (
                rw place
                  (find_from-Holds fuel v q path (pre ++ (r ∷ [])) rs h' e p paths.1 (omega arith)))
          ])))

  -- A request is answered by the first published resource whose method and path are the request's,
  -- and by none where there is no such resource.
  pub find_resource-first :
      (site : Site) (q : Request) (path : Block) (rs : List Resource)
      → Holds site.resources rs
      → q.path ≡ some (path ++ (0 ∷ []))
      → IsText path
      → HasPaths rs
      → find_resource site q ≡ ok (first_that_serves rs q path)
  unfolding find_resource begin
  find_resource-first site q path rs h e p paths =
      find_from-Holds (suc site.resources.size) site.resources q path [] rs h e p paths
        (omega (arith, h.counted))
