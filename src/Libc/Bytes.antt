-- ===== src/Libc/Bytes.antt =====
-- Bytes at places inside a block, and blocks that lack a byte.
use librestserver.Libc.{Block, read_byte, read_bytes, offset}
use librestserver.Prelude.{
  ℕ, ◌+◌, ◌≡◌, sym, ap, ap₂, ◌∙◌, true, false, [], ◌∷◌, ◌++◌, append_assoc, arith, leb, ◌==◌,
  length, length-append, take-length-append, drop-length-append, get_elem?-append_length, ok,
}

-- No byte of the block is `b`.
abbrev pub Lacks : ℕ → Block → Type 0
Lacks b [] = Unit
Lacks b (c ∷ s) = ((c == b) ≡ false) × Lacks b s

pub read_byte-append :
    (pre : Block) (c : ℕ) (s : Block) → read_byte (pre ++ (c ∷ s)) (length pre) ≡ ok c
unfolding read_byte
read_byte-append pre c s = rw (get_elem?-append_length pre c s)

pub offset-append : (pre s : Block) → offset (pre ++ s) (length pre) ≡ ok s
unfolding offset
offset-append pre s =
    let fits : leb (length pre) (length (pre ++ s)) ≡ true = ground (arith, length-append pre s) in
    rw fits (ap ok (drop-length-append pre s))

pub read_bytes-append :
    (pre bytes post : Block)
    → read_bytes (pre ++ (bytes ++ post)) (length pre) (length bytes) ≡ ok bytes
unfolding read_bytes
read_bytes-append pre bytes post =
    let fits : leb (length pre + length bytes) (length (pre ++ (bytes ++ post))) ≡ true =
      ground (arith, length-append pre (bytes ++ post), length-append bytes post) in
    rw fits (rw (drop-length-append pre (bytes ++ post)) (rw (take-length-append bytes post)))

-- One byte moves from what is left to what was passed.
pub pass_byte :
    (pre : Block) (c : ℕ) (s : Block)
    → (pre ++ (c ∷ s) ≡ (pre ++ (c ∷ [])) ++ s) × (length pre + 1 ≡ length (pre ++ (c ∷ [])))
pass_byte pre c s = (sym (append_assoc pre (c ∷ []) s), omega (arith, length-append pre (c ∷ [])))

pub read_byte-inside :
    (pre mid : Block) (c : ℕ) (post : Block)
    → read_byte (pre ++ (mid ++ (c ∷ post))) (length pre + length mid) ≡ ok c
read_byte-inside pre mid c post =
    let e : length pre + length mid ≡ length (pre ++ mid) = omega (arith, length-append pre mid) in
    ap₂ read_byte (sym (append_assoc pre mid (c ∷ post))) e ∙ read_byte-append (pre ++ mid) c post
