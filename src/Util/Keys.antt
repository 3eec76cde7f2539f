-- ===== src/Util/Keys.antt =====
-- RST_cstr_comparator of librestserver/rstutil.c on the keys of a map that owns its strings: blocks
-- of a text and one terminator, as RST_alloc_string makes them.
use librestserver.Libc.{Block}
use librestserver.Libc.Strings.{
  is_zero-strcmp, IsText, strcmp-text, same_text, same_text-eq, same_text_self,
}
use librestserver.Util.Num.{CString, cstr_comparator, Compares}
use librestserver.Prelude.{
  ◌≡◌, refl, sym, ap, ap₂, ◌∙◌, Bool, true, false, ◌&&◌, none, some, [], ◌∷◌, ◌++◌, arith, ◌==◌, ok,
  ℤ, is_zero,
}

abbrev pub key_of : Block → CString
key_of s = some (s ++ (0 ∷ []))

abbrev pub IsKey : CString → Type 0
IsKey k = (s : Block) × IsText s × (k ≡ key_of s)

unfoldable pub same_string : CString → CString → Bool
same_string none b = false
same_string (some s) none = false
same_string (some s) (some t) = same_text s t

same_text-terminated :
    (s t : Block) → IsText s → IsText t → same_text (s ++ (0 ∷ [])) (t ++ (0 ∷ [])) ≡ same_text s t
same_text-terminated [] [] h k = refl
same_text-terminated [] (b ∷ t) h k = ground arith
same_text-terminated (a ∷ s) [] h k = ground arith
same_text-terminated (a ∷ s) (b ∷ t) h k =
    ap (λ r. (a == b) && r) (same_text-terminated s t h.1 k.1)

-- Two keys are the same exactly when their texts are.
pub same_string-keys :
    (s t : Block) → IsText s → IsText t → same_string (key_of s) (key_of t) ≡ same_text s t
unfolding same_string
same_string-keys s t h k = same_text-terminated s t h k

pub same_string_self : (s : Block) → IsText s → same_string (key_of s) (key_of s) ≡ true
same_string_self s h = same_string-keys s s h h ∙ same_text_self s

pub same_string-eq : (a b : CString) → same_string a b ≡ true → a ≡ b
unfolding same_string
same_string-eq none b h = cc
same_string-eq (some s) none h = cc
same_string-eq (some s) (some t) h = ap some (same_text-eq s t h)

cstr_comparator-keys :
    (s t : Block)
    → IsText s
    → IsText t
    → (z : ℤ) × (cstr_comparator (key_of s) (key_of t) ≡ ok z) × (is_zero z ≡ same_text s t)
unfolding cstr_comparator
cstr_comparator-keys s t h k =
    let (z, e, _) = strcmp-text s t [] [] h k in
    let tested : ok (is_zero z) ≡ ok (same_text s t) = rw e at (is_zero-strcmp s t [] [] h k) in
    (z, e, cc)

-- The comparator orders nothing here: it returns zero exactly where the texts of two keys are equal.
pub cstr_comparator-Compares : Compares cstr_comparator same_string IsKey
cstr_comparator-Compares = record {
  returns = λ a b (s, h, p) (t, k, q).
      let (z, e, f) = cstr_comparator-keys s t h k in
      (
        z,
        ap₂ cstr_comparator p q ∙ e,
        f ∙ sym (same_string-keys s t h k) ∙ sym (ap₂ same_string p q),
      );
  equal_iff = λ a b (s, h, p) _.
      (same_string-eq a b, λ e. ap₂ same_string p (sym e ∙ p) ∙ same_string_self s h);
}
