-- ===== src/Parser/Header/Names.antt =====
-- When the name of a header line is that of the length of the body.
use librestserver.Libc.{Block, strncmp, codes, literal}
use librestserver.Libc.Bytes.{offset-append}
use librestserver.Libc.Strings.{IsText, same_text}
use librestserver.Parser.Header.{names_content_length}
use librestserver.Prelude.{
  subst, suc, ◌-◌, ◌≡◌, refl, sym, ap, ◌≢◌, inl, inr, false, [], ◌∷◌, ◌++◌, arith, ◌==◌, Bool-cases,
  length, ok, ℤ, pos, sub_ℕ, is_zero,
}

strncmp-same :
    (s t r q : Block)
    → IsText s
    → length s ≡ length t
    → (z : ℤ) × (strncmp (s ++ r) (t ++ q) (length s) ≡ ok z) × (is_zero z ≡ same_text s t)
unfolding strncmp
strncmp-same [] [] r q h e = (pos 0, refl, refl)
strncmp-same [] (b ∷ t) r q h e = absurd (omega arith)
strncmp-same (a ∷ s) [] r q h e = absurd (omega arith)
strncmp-same (a ∷ s) (b ∷ t) r q h e =
    let (z, f, g) = strncmp-same s t r q h.1 (omega arith) in
    let no_end : (a == 0) ≡ false = ground (arith, h.0) in
    elim (Bool-cases (a == b)) [
      | inl hit ↦ (z, rw hit (rw no_end f), rw hit g)
      | inr miss ↦ (sub_ℕ a b, rw miss refl, rw miss (ground (arith, miss)))
    ]

same_text-lengths : (s t : Block) → length s ≢ length t → same_text s t ≡ false
same_text-lengths [] [] h = absurd (h refl)
same_text-lengths [] (b ∷ t) h = refl
same_text-lengths (a ∷ s) [] h = refl
same_text-lengths (a ∷ s) (b ∷ t) h = ground (arith, same_text-lengths s t (λ e. h (ap suc e)))

-- The test is exact for a name without a terminator.
pub names_content_length-text :
    (name post : Block)
    → IsText name
    → names_content_length (name ++ post) 0 (length name)
      ≡ ok (same_text name (codes "Content-Length"))
unfolding names_content_length
names_content_length-text name post h = elim (Bool-cases (length name - 0 == 14)) [
  | inl fits ↦
      let size : length name ≡ 14 = ground (arith, fits) in
      let (z, e, f) = strncmp-same name (codes "Content-Length") post (0 ∷ []) h size in
      let compared : strncmp (name ++ post) (literal "Content-Length") 14 ≡ ok z =
        subst (λ n. strncmp (name ++ post) (literal "Content-Length") n ≡ ok z) size e in
      rw fits (rw (offset-append [] (name ++ post)) (rw compared (ap ok f)))
  | inr other ↦
      rw other
        (ap ok (sym (same_text-lengths name (codes "Content-Length") (ground (arith, other)))))
]
