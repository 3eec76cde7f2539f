-- ===== src/Server/Steady/Writers.antt =====
-- Single writers, and the entries that name them.
use librestserver.Libc.{Block, read_bytes}
use librestserver.Util.Num.{IsWord, int_comparator-Compares}
use librestserver.Util.Map.Shape.{lookup, has, lookup-has, inserted}
use librestserver.Util.Map.Laws.{lookup-inserted}
use librestserver.Util.Set
use librestserver.Util.Set.Laws.{removed, member-removed, IsSetOf}
use librestserver.Util.Set.Updates.{member-added, added}
use librestserver.Server.State.{WriterData}
use librestserver.Server.Send.{kernel_send, advance}
use librestserver.Server.Send.Progress.{kernel_send-at}
use librestserver.Server.Steady.{among, IsReady}
use librestserver.Prelude.{
  ℕ, zero, suc, ◌+◌, ◌-◌, ◌≤◌, ◌<◌, ◌≡◌, refl, sym, ap, ◌∙◌, ◌⊎◌, inl, inr, true, false, ◌||◌, some,
  List, [], ◌∷◌, arith, ◌==◌, if◌then◌else◌, Bool-cases, length, get_elem?, set, take, drop, ok,
  pos, sub_ℕ, is_positive, add_ℕ, take_ℕ,
}

-- A writer that an advance leaves with something left has not left its block.
pub advance-IsReady :
    (w : WriterData) (k n t : ℕ)
    → w.off ≡ pos k
    → w.len ≡ pos n
    → k + n ≤ length w.block
    → IsReady (advance w (some t))
unfolding advance
advance-IsReady w k n t at some_left le more =
    let left : take_ℕ w.len t ≡ sub_ℕ n t = ap (λ z. take_ℕ z t) some_left in
    let positive : is_positive (sub_ℕ n t) ≡ true = ap is_positive (sym left) ∙ more in
    let lt : t < n = ground arith in
    (k + t, n - t, ap (λ z. add_ℕ z t) at, left ∙ ground arith, omega arith)

pub kernel_send-ready :
    (w : WriterData) (k n t : ℕ)
    → w.off ≡ pos k
    → w.len ≡ pos n
    → k + n ≤ length w.block
    → (bytes : Block) × (kernel_send w (some t) ≡ ok bytes)
kernel_send-ready w k n t at some_left le =
    let inside : read_bytes w.block k n ≡ ok (take n (drop k w.block)) =
      unfold read_bytes in ground arith in
    (
      take t (take n (drop k w.block)),
      kernel_send-at w k n (take n (drop k w.block)) t at some_left inside,
    )

-- The writers of a list at an index, when one of them is replaced, or one is added.
pub set-IsReady :
    (ws : List WriterData) (at i : ℕ) {w : WriterData} (x : WriterData)
    → get_elem? ws i ≡ some w
    → IsReady w
    → IsReady x
    → (y : WriterData) × (get_elem? (set ws at x) i ≡ some y) × IsReady y
set-IsReady [] at i x e p q = cc
set-IsReady (v ∷ ws) zero zero {w} x e p q = (x, refl, q)
set-IsReady (v ∷ ws) zero (suc i) {w} x e p q = (w, e, p)
set-IsReady (v ∷ ws) (suc at) zero {w} x e p q = (w, e, p)
set-IsReady (v ∷ ws) (suc at) (suc i) x e p q = set-IsReady ws at i x e p q

pub lookup-some :
    (j : ℕ) (entries : List (ℕ × ℕ))
    → has ◌==◌ j entries ≡ true
    → (at : ℕ) × (lookup ◌==◌ j entries ≡ some at)
unfolding lookup has
lookup-some j [] h = cc
lookup-some j ((k, x) ∷ entries) h = elim (Bool-cases (j == k)) [
  | inl hit ↦ (x, rw hit refl)
  | inr miss ↦ rw miss (lookup-some j entries (rw miss at h))
]

-- Where an entry comes from, and where one stays.
pub lookup-inserted_cases :
    (j key x at : ℕ) (entries : List (ℕ × ℕ))
    → lookup ◌==◌ j (inserted ◌==◌ IsWord key x entries) ≡ some at
    → (lookup ◌==◌ j entries ≡ some at) ⊎ (at ≡ x)
lookup-inserted_cases j key x at entries e =
    let found = sym (lookup-inserted ◌==◌ IsWord int_comparator-Compares j key x entries) ∙ e in
    elim (Bool-cases (has ◌==◌ key entries)) [
      | inl old ↦ inl (rw old at found)
      | inr new ↦ elim (Bool-cases (has ◌==◌ j entries)) [
        | inl there ↦ inl (rw (new, there) at found)
        | inr absent ↦ inr (ground (arith, found))
      ]
    ]

pub lookup-inserted_there :
    (j key x : ℕ) (entries : List (ℕ × ℕ))
    → (has ◌==◌ j entries || (j == key)) ≡ true
    → (at : ℕ) × (lookup ◌==◌ j (inserted ◌==◌ IsWord key x entries) ≡ some at)
lookup-inserted_there j key x entries h =
    let law = lookup-inserted ◌==◌ IsWord int_comparator-Compares j key x entries in
    elim (Bool-cases (has ◌==◌ j entries)) [
      | inl there ↦
          let (at, e) = lookup-some j entries there in (at, law ∙ ground (arith, there, e))
      | inr absent ↦
          let same : j ≡ key = ground arith in
          let new : has ◌==◌ key entries ≡ false =
            ap (λ k. has ◌==◌ k entries) (sym same) ∙ absent in
          (x, law ∙ ground (arith, absent, new, same))
    ]

-- An entry that is not there is not found.
pub has-lookup :
    (j at : ℕ) (entries : List (ℕ × ℕ))
    → lookup ◌==◌ j entries ≡ some at
    → has ◌==◌ j entries ≡ true
has-lookup j at entries e = elim (Bool-cases (has ◌==◌ j entries)) [
  | inl there ↦ there
  | inr absent ↦ absurd (ground (arith, lookup-has ◌==◌ j entries absent))
]

-- The elements of a set with one more.
pub among-added :
    {s : Set.Group ℕ} {xs : List ℕ} (x j : ℕ)
    → IsSetOf ◌==◌ IsWord s xs
    → IsWord x
    → IsWord j
    → among j (added ◌==◌ IsWord x xs) ≡ ((x == j) || among j xs)
among-added {s} {xs} x j h p q = member-added ◌==◌ IsWord x j xs h.compares p q

pub among-removed :
    {s : Set.Group ℕ} {xs : List ℕ} (x j : ℕ)
    → IsSetOf ◌==◌ IsWord s xs
    → IsWord x
    → IsWord j
    → among j (removed ◌==◌ IsWord x xs) ≡ (if j == x then false else among j xs)
among-removed {s} {xs} x j h p q =
    member-removed ◌==◌ IsWord j x xs h.compares q p h.held h.distinct
