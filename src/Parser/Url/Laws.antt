-- ===== src/Parser/Url/Laws.antt =====
-- The path of a url is what stands before its first question mark, the query what stands behind it.
use librestserver.Libc.{Block, read_byte}
use librestserver.Libc.Bytes.{Lacks, read_byte-append, pass_byte}
use librestserver.Parser.Url.{path_length, parse_url}
use librestserver.Prelude.{
  ℕ, suc, ◌+◌, ◌-◌, ◌≡◌, refl, sym, ap, ap₂, ◌∙◌, true, false, [], ◌∷◌, ◌++◌, arith, ◌==◌, length,
  Result, ok,
}

-- A byte that is no question mark is passed.
path_step :
    (n c : ℕ) (at : Block) (k : ℕ)
    → read_byte at k ≡ ok c
    → (c == b'?') ≡ false
    → path_length (suc n) at k ≡ path_length n at (k + 1)
unfolding path_length
path_step n c at k e h =
    rw e (ap (λ b. elim b as (λ x. Result ℕ) [ true ↦ ok k | false ↦ path_length n at (k + 1) ]) h)

-- The loop passes the bytes that are no question mark.
path_length-Lacks :
    (pre path post : Block) (n : ℕ)
    → Lacks b'?' path
    → path_length (length path + n) (pre ++ (path ++ post)) (length pre)
      ≡ path_length n (pre ++ (path ++ post)) (length pre + length path)
path_length-Lacks pre [] post n h =
    ap₂ (λ a b. path_length a (pre ++ post) b) (omega arith) (omega arith)
path_length-Lacks pre (c ∷ path) post n h =
    let all = pre ++ ((c ∷ path) ++ post) in
    let (e, k) = pass_byte pre c (path ++ post) in
    let count : length (c ∷ path) + n ≡ suc (length path + n) = omega arith in
    let place : length (pre ++ (c ∷ [])) + length path ≡ length pre + length (c ∷ path) =
      omega (arith, k) in
    ap (λ m. path_length m all (length pre)) count
    ∙ path_step (length path + n) c all (length pre) (read_byte-append pre c (path ++ post)) h.0
    ∙ ap₂ (λ b i. path_length (length path + n) b i) e k
    ∙ path_length-Lacks (pre ++ (c ∷ [])) path post n h.1
    ∙ ap₂ (λ b i. path_length n b i) (sym e) place

-- The loop stops at the first question mark.
path_stops : (n k : ℕ) (at : Block) → read_byte at k ≡ ok b'?' → path_length (suc n) at k ≡ ok k
unfolding path_length
path_stops n k at e = rw e refl

-- A url with a query is split at its first question mark into the length of the path, and the place
-- and the length of the query.
pub parse_url_query :
    (path query post : Block)
    → Lacks b'?' path
    → parse_url (path ++ (b'?' ∷ (query ++ post))) (length path + suc (length query))
      ≡ ok (record { plen = length path; qoff = length path + 1; qlen = length query })
unfolding parse_url
parse_url_query path query post h =
    let all = path ++ (b'?' ∷ (query ++ post)) in
    let left : length path + suc (length query) - length path - 1 ≡ length query = omega arith in
    let here = read_byte-append path b'?' (query ++ post) in
    let start : 0 + length path ≡ length path = omega arith in
    let passed : path_length (length path + suc (length query)) all 0 ≡ ok (length path) =
      path_length-Lacks [] path (b'?' ∷ (query ++ post)) (suc (length query)) h
      ∙ ap (λ i. path_length (suc (length query)) all i) start
      ∙ path_stops (length query) (length path) all here in
    rw passed (rw here (rw left refl))

-- The loop stops at the end of the url.
path_end : (k : ℕ) (at : Block) → path_length 0 at k ≡ ok k
unfolding path_length
path_end k at = refl

-- A url without a question mark, in front of a terminator, is all path, with an empty query.
pub parse_url_plain :
    (path post : Block)
    → Lacks b'?' path
    → parse_url (path ++ (0 ∷ post)) (length path)
      ≡ ok (record { plen = length path; qoff = length path; qlen = 0 })
unfolding parse_url
parse_url_plain path post h =
    let left : length path - length path ≡ 0 = omega arith in
    let count : length path ≡ length path + 0 = omega arith in
    let start : 0 + length path ≡ length path = omega arith in
    let passed : path_length (length path) (path ++ (0 ∷ post)) 0 ≡ ok (length path) =
      ap (λ n. path_length n (path ++ (0 ∷ post)) 0) count
      ∙ path_length-Lacks [] path (0 ∷ post) 0 h
      ∙ ap (λ i. path_length 0 (path ++ (0 ∷ post)) i) start
      ∙ path_end (length path) (path ++ (0 ∷ post)) in
    rw passed (rw (read_byte-append path 0 post) (rw left refl))
