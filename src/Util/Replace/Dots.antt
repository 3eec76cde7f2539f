-- ===== src/Util/Replace/Dots.antt =====
-- The use of str_replace in testapp/main.c: dropping ".." from a path leaves no "..".
use librestserver.Libc.{Block, find_text, starts_with}
use librestserver.Libc.Strings.{IsText}
use librestserver.Util.Replace.{str_replace}
use librestserver.Util.Replace.Laws.{replaced, str_replace-replaced}
use librestserver.Prelude.{
  ℕ, zero, suc, ◌-◌, ◌≡◌, refl, ap, inl, inr, true, false, none, some, [], ◌∷◌, ◌++◌, arith, ◌==◌,
  Bool-cases, length, ok,
}

abbrev pub dots : Block
dots = b'.' ∷ b'.' ∷ []

-- Nothing is dropped from the head of a path that does not start with a dot.
replaced_other :
    (c : ℕ) (s : Block)
    → (c == b'.') ≡ false
    → replaced dots [] 0 (c ∷ s) ≡ c ∷ replaced dots [] 0 s
unfolding replaced starts_with
replaced_other c s h = ground arith

replaced_pair :
    (c d : ℕ) (s : Block)
    → (c == b'.') ≡ true
    → (d == b'.') ≡ true
    → replaced dots [] 0 (c ∷ d ∷ s) ≡ replaced dots [] 0 s
unfolding replaced starts_with
replaced_pair c d s h k = rw (h, k)

-- A dot before another byte stays, and so does that byte.
replaced_single :
    (c d : ℕ) (s : Block)
    → (c == b'.') ≡ true
    → (d == b'.') ≡ false
    → replaced dots [] 0 (c ∷ d ∷ s) ≡ c ∷ d ∷ replaced dots [] 0 s
unfolding replaced starts_with
replaced_single c d s h k = rw (h, k) (ap (◌∷◌ c) (ground arith))

find_text_other :
    (c : ℕ) (s : Block)
    → (c == b'.') ≡ false
    → find_text s dots ≡ none
    → find_text (c ∷ s) dots ≡ none
unfolding find_text starts_with
find_text_other c s h k = rw (h, k)

find_text_single :
    (c d : ℕ) (s : Block)
    → (d == b'.') ≡ false
    → find_text (d ∷ s) dots ≡ none
    → find_text (c ∷ d ∷ s) dots ≡ none
unfolding find_text starts_with
find_text_single c d s h k = ground arith

clean : (s : Block) → find_text (replaced dots [] 0 s) dots ≡ none
clean [] = unfold replaced find_text starts_with in refl
clean (c ∷ []) = unfold replaced find_text starts_with in ground arith
clean (c ∷ d ∷ s) = elim (Bool-cases (c == b'.')) [
  | inl dot ↦ elim (Bool-cases (d == b'.')) [
    | inl both ↦ rw (replaced_pair c d s dot both) (clean s)
    | inr one ↦
        rw (replaced_single c d s dot one)
          (find_text_single c d _ one (rw (replaced_other d s one) at (clean (d ∷ s))))
  ]
  | inr other ↦ rw (replaced_other c (d ∷ s) other) (find_text_other c _ other (clean (d ∷ s)))
]

replaced-IsText : (s rep : Block) (k : ℕ) → IsText s → IsText (replaced rep [] k s)
unfolding replaced
replaced-IsText [] rep zero h = tt
replaced-IsText [] rep (suc k) h = tt
replaced-IsText (c ∷ s) rep (suc k) h = replaced-IsText s rep k h.1
replaced-IsText (c ∷ s) rep zero h = elim (Bool-cases (starts_with (c ∷ s) rep)) [
  | inl hit ↦ rw hit (replaced-IsText s rep (length rep - 1) h.1)
  | inr miss ↦ rw miss (h.0, replaced-IsText s rep 0 h.1)
]

-- Replacing ".." by nothing in a path without a terminator returns one in which ".." does not occur.
pub str_replace-dots :
    (path : Block)
    → IsText path
    → (out : Block) × (str_replace
          (some (path ++ (0 ∷ [])))
          (some (dots ++ (0 ∷ [])))
          (some (0 ∷ []))
        ≡ ok (some (out ++ (0 ∷ []))))
      × (find_text out dots ≡ none)
      × IsText out
str_replace-dots path p = (
  replaced dots [] 0 path,
  str_replace-replaced path dots [] p (omega arith) tt (ground arith),
  clean path,
  replaced-IsText path dots 0 p,
)
