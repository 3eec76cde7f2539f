-- ===== src/Util/Replace.antt =====
-- RST_str_replace of librestserver/rstutil.c, on the texts of its three C strings (a null pattern
-- or replacement is the empty text). strstr, strncpy and strcpy are read on texts.
pub mod Laws
pub mod Dots
use librestserver.Libc.{Block, find_text, text_of}
use librestserver.Util.Num.{CString}
use librestserver.Prelude.{
  ℕ, zero, suc, ◌+◌, ◌-◌, ◌*◌, none, some, [], ◌∷◌, ◌++◌, leb, length, take, drop, out_of_bounds,
  null_pointer, no_progress, Result, ok, err, ◌>>=◌, ◌>>◌, guard, from_option,
}

-- The first loop: the number of places where the pattern is found, each search starting behind
-- the match before. An empty pattern matches for ever.
unfoldable pub count_from : ℕ → Block → Block → Result ℕ
unfolding find_text
count_from zero ins rep = err no_progress
count_from (suc fuel) ins rep = elim (find_text ins rep) [
  | none ↦ ok 0
  | some k ↦ (count_from fuel (drop (k + length rep) ins) rep >>= λ n. ok (suc n))
]

-- The second loop, with the rounds left: the text before a match, then the replacement.
unfoldable pub build_from : ℕ → Block → Block → Block → Result Block
unfolding find_text
build_from zero orig rep with_text = ok orig
build_from (suc count) orig rep with_text = do
  front ← from_option (find_text orig rep) null_pointer
  rest ← build_from count (drop (front + length rep) orig) rep with_text
  ok (take front orig ++ (with_text ++ rest))

-- The bytes that the result gets: `strlen(orig) + (len_with - len_rep) * count + 1`, where the
-- product may be negative.
unfoldable pub result_size : Block → Block → Block → ℕ → ℕ
result_size orig rep with_text count =
    length orig + length with_text * count - length rep * count + 1

-- The text of an argument: the empty one for a null pointer.
unfoldable pub text_or_empty : CString → Result Block
unfolding text_of
text_or_empty none = ok []
text_or_empty (some s) = text_of s

-- The block that is returned: the result and its terminator, which must fit the allocation.
unfoldable pub str_replace : CString → CString → CString → Result CString
unfolding text_or_empty count_from build_from result_size
str_replace none rep with_text = ok none
str_replace (some orig) rep with_text = do
  s ← text_of orig
  r ← text_or_empty rep
  w ← text_or_empty with_text
  n ← count_from (suc (length s)) s r
  out ← build_from n s r w
  guard (leb (length out + 1) (result_size s r w n)) out_of_bounds
  ok (some (out ++ (0 ∷ [])))
