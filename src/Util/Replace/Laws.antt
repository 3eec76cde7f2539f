-- ===== src/Util/Replace/Laws.antt =====
-- str_replace against a one-pass reference: copy the text, and put the replacement for each
-- match of the pattern, matches taken from the left and not overlapping.
use librestserver.Libc.{Block, find_text, starts_with}
use librestserver.Libc.Strings.{IsText, text_of-text}
use librestserver.Util.Replace.{count_from, build_from, result_size, text_or_empty, str_replace}
use librestserver.Prelude.{
  ℕ, zero, suc, ◌+◌, ◌-◌, ◌*◌, ◌≤◌, ◌<◌, ◌≡◌, refl, sym, ap, ap₂, ◌∙◌, ◌≢◌, ◌⊎◌, inl, inr, true,
  false, none, some, [], ◌∷◌, ◌++◌, arith, leb, if◌then◌else◌, Bool-cases, Option-cases, length,
  take, drop, length-append, length-drop, length-take_le, ok,
}

-- The first number counts the bytes of a match that are still to be passed over.
unfoldable pub replaced : Block → Block → ℕ → Block → Block
replaced rep with_text skip [] = []
replaced rep with_text (suc skip) (c ∷ s) = replaced rep with_text skip s
replaced rep with_text zero (c ∷ s) =
    if starts_with (c ∷ s) rep
    then with_text ++ replaced rep with_text (length rep - 1) s
    else c ∷ replaced rep with_text 0 s

starts_with-length : (s t : Block) → starts_with s t ≡ true → length t ≤ length s
unfolding starts_with
starts_with-length s [] h = omega arith
starts_with-length [] (b ∷ t) h = cc
starts_with-length (a ∷ s) (b ∷ t) h = ground (arith, starts_with-length s t)

replaced_skip : (rep w s : Block) (k : ℕ) → replaced rep w k s ≡ replaced rep w 0 (drop k s)
unfolding replaced
replaced_skip rep w [] zero = refl
replaced_skip rep w [] (suc k) = refl
replaced_skip rep w (c ∷ s) zero = refl
replaced_skip rep w (c ∷ s) (suc k) = replaced_skip rep w s k

module _ (b : ℕ) (rep w : Block) where
  -- With no match left the reference copies the text.
  replaced-none : (s : Block) → find_text s (b ∷ rep) ≡ none → replaced (b ∷ rep) w 0 s ≡ s
  unfolding find_text replaced
  replaced-none [] h = refl
  replaced-none (c ∷ s) h = ground (arith, replaced-none s)

  find_text_cases :
      (c : ℕ) (s : Block) (k : ℕ)
      → find_text (c ∷ s) (b ∷ rep) ≡ some k
      → ((starts_with (c ∷ s) (b ∷ rep) ≡ true) × (k ≡ 0))
        ⊎ ((starts_with (c ∷ s) (b ∷ rep) ≡ false)
            × ((j : ℕ) × (find_text s (b ∷ rep) ≡ some j) × (k ≡ suc j)))
  unfolding find_text
  find_text_cases c s k h = elim (Bool-cases (starts_with (c ∷ s) (b ∷ rep))) [
    | inl hit ↦ inl (hit, ground arith)
    | inr miss ↦ inr (
      miss,
      elim (Option-cases (find_text s (b ∷ rep))) [
        | inl no_match ↦ absurd (ground arith)
        | inr (j, match) ↦ (j, match, ground arith)
      ],
    )
  ]

  -- At the first match it copies what stands before, and goes on behind it.
  replaced-some :
      (s : Block) (k : ℕ)
      → find_text s (b ∷ rep) ≡ some k
      → (replaced (b ∷ rep) w 0 s
          ≡ take k s ++ (w ++ replaced (b ∷ rep) w 0 (drop (k + length (b ∷ rep)) s)))
        × (k + length (b ∷ rep) ≤ length s)
  unfolding find_text replaced
  replaced-some [] k h = absurd (unfold starts_with in ground arith)
  replaced-some (c ∷ s) k h = elim (find_text_cases c s k h) [
    | inl (hit, e) ↦
        let less : suc (length rep) - 1 ≡ length rep = omega arith in
        let whole : 0 + suc (length rep) ≡ suc (length rep) = omega arith in
        (
          rw (hit, e)
              (rw (less, whole) (ap (λ l. w ++ l) (replaced_skip (b ∷ rep) w s (length rep)))),
          omega (arith, starts_with-length (c ∷ s) (b ∷ rep) hit),
        )
    | inr (miss, (j, match, e)) ↦
        let (step, fits) = replaced-some s j match in
        let behind : suc j + suc (length rep) ≡ suc (j + suc (length rep)) = omega arith in
        (rw (miss, e) (rw behind (ap (◌∷◌ c) step)), omega arith)
  ]

  -- The sizes, once around.
  size :
      (s : Block) (k : ℕ) (n : ℕ)
      → replaced (b ∷ rep) w 0 s
        ≡ take k s ++ (w ++ replaced (b ∷ rep) w 0 (drop (k + length (b ∷ rep)) s))
      → k + length (b ∷ rep) ≤ length s
      → length (replaced (b ∷ rep) w 0 (drop (k + length (b ∷ rep)) s)) + length (b ∷ rep) * n
        ≡ length (drop (k + length (b ∷ rep)) s) + length w * n
      → length (replaced (b ∷ rep) w 0 s) + length (b ∷ rep) * suc n ≡ length s + length w * suc n
  size s k n step fits g =
      let tail = replaced (b ∷ rep) w 0 (drop (k + length (b ∷ rep)) s) in
      let total : length (replaced (b ∷ rep) w 0 s) ≡ k + (length w + length tail) =
        ap length step
        ∙ length-append (take k s) (w ++ tail)
        ∙ ap₂ ◌+◌ (length-take_le k s (omega arith)) (length-append w tail) in
      omega (arith, total, length-drop (k + length (b ∷ rep)) s)

  -- Both loops together, on enough fuel, build what the reference says, and the count of the
  -- first loop gives the exact size.
  loops_agree :
      (fuel : ℕ) (s : Block)
      → length s < fuel
      → (n : ℕ) × (count_from fuel s (b ∷ rep) ≡ ok n)
        × (build_from n s (b ∷ rep) w ≡ ok (replaced (b ∷ rep) w 0 s))
        × (length (replaced (b ∷ rep) w 0 s) + length (b ∷ rep) * n ≡ length s + length w * n)
  unfolding count_from build_from
  loops_agree zero s lt = absurd (omega arith)
  loops_agree (suc fuel) s lt = elim (Option-cases (find_text s (b ∷ rep))) [
    | inl no_match ↦ (
      0,
      rw (no_match, count_from),
      ap ok (sym (replaced-none s no_match)),
      ap (λ l. length l + length (b ∷ rep) * 0) (replaced-none s no_match) ∙ omega arith,
    )
    | inr (k, match) ↦
        let (step, fits) = replaced-some s k match in
        let (n, e, f, g) =
          loops_agree fuel (drop (k + length (b ∷ rep)) s)
            (omega (arith, length-drop (k + length (b ∷ rep)) s)) in
        (
          suc n,
          rw (match, count_from) (rw e),
          rw match (rw f (ap ok (sym step))),
          size s k n step fits g,
        )
  ]

-- On texts without a terminator and a pattern that is not empty the call returns the reference's
-- result; a write outside the block allocated for it would be an error instead.
pub str_replace-replaced :
    (s rep w : Block)
    → IsText s
    → IsText rep
    → IsText w
    → rep ≢ []
    → str_replace (some (s ++ (0 ∷ []))) (some (rep ++ (0 ∷ []))) (some (w ++ (0 ∷ [])))
      ≡ ok (some (replaced rep w 0 s ++ (0 ∷ [])))
unfolding str_replace text_or_empty result_size
str_replace-replaced s [] w p q r ne = absurd (ne refl)
str_replace-replaced s (b ∷ rep) w p q r ne =
    let (n, e, f, g) = loops_agree b rep w (suc (length s)) s (omega arith) in
    let out = replaced (b ∷ rep) w 0 s in
    let fits : leb (length out + 1) (result_size s (b ∷ rep) w n) ≡ true = enough out n g in
    rw (text_of-text s [] p)
      (rw (text_of-text (b ∷ rep) [] q) (rw (text_of-text w [] r) (rw e (rw f (rw fits)))))
  where
    enough :
        (out : Block) (n : ℕ)
        → length out + length (b ∷ rep) * n ≡ length s + length w * n
        → leb (length out + 1) (result_size s (b ∷ rep) w n) ≡ true
    enough out n g =
        let exact : result_size s (b ∷ rep) w n ≡ length out + 1 = omega arith in
        ground (arith, exact)
