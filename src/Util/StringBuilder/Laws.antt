-- ===== src/Util/StringBuilder/Laws.antt =====
-- A string builder that holds a text: its buffer is the text and one terminator, no more, and
-- every operation does to the text what its name says, inside the buffer.
use librestserver.Libc.{Block, read_bytes, offset, strlen}
use librestserver.Libc.Strings.{IsText, strlen-text}
use librestserver.Util.StringBuilder.{
  StringBuilder, alloc_string_n, alloc_string, init, slice_inplace, resize, write_bytes, append_n,
  append, append_char, append_builder,
}
use librestserver.Prelude.{
  subst, ℕ, zero, suc, ◌+◌, ◌-◌, ◌≤◌, ◌≡◌, refl, ap, ◌∙◌, true, some, [], ◌∷◌, ◌++◌, append_assoc,
  append-nil, arith, leb, length, take, drop, replicate, length-append, length-replicate,
  take-length-append, drop-length-append, take_all, ok,
}

pub record Spells (sb : StringBuilder) (s : Block) : Type 0 where
  pub exact : sb.buf ≡ s ++ (0 ∷ [])
  pub counted : sb.len ≡ length s

pub read_bytes-all : (s r : Block) → read_bytes (s ++ r) 0 (length s) ≡ ok s
unfolding read_bytes
read_bytes-all s r =
    let fits : leb (0 + length s) (length (s ++ r)) ≡ true = ground (arith, length-append s r) in
    rw fits (ap ok (take-length-append s r))

-- A copy of `n` bytes of a longer block.
pub alloc_string_n-take :
    (src : Block) (n : ℕ) → n ≤ length src → alloc_string_n src n ≡ ok (take n src ++ (0 ∷ []))
unfolding alloc_string_n read_bytes
alloc_string_n-take src n h = let fits : leb (0 + n) (length src) ≡ true = ground arith in rw fits

pub alloc_string-text : (s r : Block) → IsText s → alloc_string (s ++ (0 ∷ r)) ≡ ok (s ++ (0 ∷ []))
unfolding alloc_string alloc_string_n
alloc_string-text s r h = rw (strlen-text s r h) (rw (read_bytes-all s (0 ∷ r)))

pub init-Spells : (sb : StringBuilder) × (init ≡ ok sb) × Spells sb []
unfolding init alloc_string alloc_string_n read_bytes strlen
init-Spells = (record { buf = 0 ∷ []; len = 0 }, refl, record { exact = refl; counted = refl })

-- A write over as many bytes in the middle of a block.
write_bytes-append :
    (s m t e : Block)
    → length m ≡ length t
    → write_bytes (s ++ (m ++ e)) (length s) t ≡ ok (s ++ (t ++ e))
unfolding write_bytes
write_bytes-append s m t e h =
    let fits : leb (length s + length t) (length (s ++ (m ++ e))) ≡ true =
      ground (arith, length-append s (m ++ e), length-append m e) in
    let middle : length s + length t ≡ length (s ++ m) = omega (arith, length-append s m) in
    let after : drop (length s + length t) (s ++ (m ++ e)) ≡ e =
      rw (middle, ← append_assoc s m e) (drop-length-append (s ++ m) e) in
    rw fits (rw (take-length-append s (m ++ e), after))

replicate-snoc : (n : ℕ) → ◌≡◌ {A = Block} (0 ∷ replicate n 0) (replicate n 0 ++ (0 ∷ []))
replicate-snoc zero = refl
replicate-snoc (suc n) = ap (◌∷◌ 0) (replicate-snoc n)

-- The grown buffer: the text, room for `n` bytes, and one for the terminator.
resize-Spells :
    {sb : StringBuilder} {s : Block} (n : ℕ)
    → Spells sb s
    → resize sb.buf (sb.len + n + 1) ≡ s ++ (replicate n 0 ++ (0 ∷ []))
unfolding resize
resize-Spells {sb} {s} n h =
    let size : length (s ++ (0 ∷ [])) ≡ length s + 1 = omega (arith, length-append s (0 ∷ [])) in
    let spare : length s + n + 1 - length (s ++ (0 ∷ [])) ≡ n = omega (arith, size) in
    rw (h.exact, h.counted)
      (rw (take_all (length s + n + 1) (s ++ (0 ∷ [])) (omega (arith, size)), spare)
        (append_assoc s (0 ∷ []) (replicate n 0) ∙ ap (λ l. s ++ l) (replicate-snoc n)))

-- Appending the first bytes of a block, as many as `t` has, to a builder that spells `s` succeeds and
-- leaves a builder that spells `s` and `t`.
pub append_n-Spells :
    {sb : StringBuilder} {s : Block} (t r : Block)
    → Spells sb s
    → (out : StringBuilder) × (append_n sb (t ++ r) (length t) ≡ ok out) × Spells out (s ++ t)
unfolding append_n
append_n-Spells {sb} {s} t r h =
    let n = length t in
    let copied : write_bytes (resize sb.buf (sb.len + n + 1)) sb.len t ≡ ok (s ++ (t ++ (0 ∷ []))) =
      rw (resize-Spells n h, h.counted)
        (write_bytes-append s (replicate n 0) t (0 ∷ []) (length-replicate n 0)) in
    let place : sb.len + n ≡ length (s ++ t) = omega (arith, h.counted, length-append s t) in
    let ended : write_bytes (s ++ (t ++ (0 ∷ []))) (sb.len + n) (0 ∷ [])
        ≡ ok ((s ++ t) ++ (0 ∷ [])) =
      rw (place, ← append_assoc s t (0 ∷ []))
        (write_bytes-append (s ++ t) (0 ∷ []) (0 ∷ []) [] refl) in
    (
      record { buf = (s ++ t) ++ (0 ∷ []); len = sb.len + n },
      rw (read_bytes-all t r) (rw copied (rw ended)),
      record { exact = refl; counted = place },
    )

-- Appending a C string.
pub append-Spells :
    {sb : StringBuilder} {s : Block} (t r : Block)
    → Spells sb s
    → IsText t
    → (out : StringBuilder) × (append sb (some (t ++ (0 ∷ r))) ≡ ok out) × Spells out (s ++ t)
unfolding append
append-Spells {sb} {s} t r h p =
    let (out, e, g) = append_n-Spells t (0 ∷ r) h in (out, rw (strlen-text t r p) e, g)

-- Appending another builder.
pub append_builder-Spells :
    {sb sb2 : StringBuilder} {s t : Block}
    → Spells sb s
    → Spells sb2 t
    → (out : StringBuilder) × (append_builder sb (some sb2) ≡ ok out) × Spells out (s ++ t)
unfolding append_builder
append_builder-Spells {sb} {sb2} {s} {t} h k =
    let (out, e, g) = append_n-Spells t (0 ∷ []) h in (out, rw (k.exact, k.counted) e, g)

pub append_char-Spells :
    {sb : StringBuilder} {s : Block} (c : ℕ)
    → Spells sb s
    → (out : StringBuilder) × (append_char sb c ≡ ok out) × Spells out (s ++ (c ∷ []))
unfolding append_char
append_char-Spells c h = append_n-Spells (c ∷ []) [] h

-- Slicing a builder that spells `s`, `t` and `r` at the length of `s`, for as many bytes as `t` has,
-- leaves a builder that spells `t`.
pub slice_inplace-Spells :
    {sb : StringBuilder} (s t r : Block)
    → Spells sb (s ++ (t ++ r))
    → (out : StringBuilder) × (slice_inplace sb (length s) (length t) ≡ ok out) × Spells out t
unfolding slice_inplace offset alloc_string_n
slice_inplace-Spells {sb} s t r h =
    let block : sb.buf ≡ s ++ (t ++ (r ++ (0 ∷ []))) =
      h.exact ∙ rw (append_assoc s (t ++ r) (0 ∷ []), append_assoc t r (0 ∷ [])) in
    let fits : leb (length s) (length (s ++ (t ++ (r ++ (0 ∷ []))))) ≡ true =
      ground (arith, length-append s (t ++ (r ++ (0 ∷ [])))) in
    (
      record { buf = t ++ (0 ∷ []); len = length t },
      rw block (
          rw fits (
            rw (drop-length-append s (t ++ (r ++ (0 ∷ []))))
              (rw (read_bytes-all t (r ++ (0 ∷ [])))))),
      record { exact = refl; counted = refl },
    )

-- Appending a whole block.
pub append_n-all :
    {sb : StringBuilder} {s : Block} (t : Block)
    → Spells sb s
    → (out : StringBuilder) × (append_n sb t (length t) ≡ ok out) × Spells out (s ++ t)
append_n-all {sb} t h =
    let (out, e, g) = append_n-Spells t [] h in
    (out, subst (λ l. append_n sb l (length t) ≡ ok out) (append-nil t) e, g)
