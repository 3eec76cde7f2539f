-- ===== src/Parser/Line/Laws.antt =====
-- What a well-formed request line is to the owner of the parser.
use librestserver.Libc.{Block, memchr, offset, read_byte, read_bytes, codes, is_digit, strncmp}
use librestserver.Libc.Bytes.{
  Lacks, read_byte-append, read_byte-inside, read_bytes-append, offset-append,
}
use librestserver.Parser.State.{Parser, Settings, Method, get, post, put, delete}
use librestserver.Parser.Line.{
  method_named, parse_method, skip_spaces, version_at, parse_version, parse_url_at, parse_target,
  parse_after, parse_word, request_line,
}
use librestserver.Prelude.{
  ℕ, zero, suc, ◌+◌, ◌-◌, ◌<◌, ◌≡◌, refl, sym, ap, ap₂, ◌∙◌, Bool, true, false, ◌&&◌, Option, none,
  some, [], ◌∷◌, ◌++◌, append_assoc, arith, leb, ◌==◌, if◌then◌else◌, ==_iff, length, drop,
  length-append, Result, ok, ◌>>=◌,
}

-- The word of each method.
abbrev pub word_of : Method → Block
word_of get = codes "GET"
word_of post = codes "POST"
word_of put = codes "PUT"
word_of delete = codes "DELETE"

memchr-Lacks :
    (b : ℕ) (word rest : Block) (n : ℕ)
    → Lacks b word
    → length word < n
    → memchr (word ++ (b ∷ rest)) b n ≡ ok (some (length word))
unfolding memchr
memchr-Lacks b word rest zero h lt = absurd (omega arith)
memchr-Lacks b [] rest (suc n) h lt =
    let same : (b == b) ≡ true = (==_iff b b).1 refl in rw same refl
memchr-Lacks b (c ∷ word) rest (suc n) h lt =
    rw (h.0) (rw (memchr-Lacks b word rest n h.1 (omega arith)) refl)

word_of-Lacks : (m : Method) → Lacks b' ' (word_of m)
word_of-Lacks get = ground arith
word_of-Lacks post = ground arith
word_of-Lacks put = ground arith
word_of-Lacks delete = ground arith

parse_method-word :
    (m : Method) (rest : Block)
    → parse_method (word_of m ++ (b' ' ∷ rest)) (length (word_of m)) ≡ ok (some m)
unfolding parse_method method_named strncmp
parse_method-word get rest = refl
parse_method-word post rest = refl
parse_method-word put rest = refl
parse_method-word delete rest = refl

skip_step :
    (n c : ℕ) (at : Block) (k : ℕ) (b : Bool)
    → read_byte at k ≡ ok c
    → (c == b' ') ≡ b
    → skip_spaces (suc n) at k ≡ (if b then skip_spaces n at (k + 1) else ok k)
unfolding skip_spaces
skip_step n c at k true e h =
    rw e (ap (λ x. elim x as (λ y. Result ℕ) [ true ↦ skip_spaces n at (k + 1) | false ↦ ok k ]) h)
skip_step n c at k false e h =
    rw e (ap (λ x. elim x as (λ y. Result ℕ) [ true ↦ skip_spaces n at (k + 1) | false ↦ ok k ]) h)

-- One blank, and a byte that is none.
skip_one :
    (pre : Block) (c : ℕ) (rest : Block) (n : ℕ)
    → (c == b' ') ≡ false
    → 1 < n
    → skip_spaces n (pre ++ (b' ' ∷ c ∷ rest)) (length pre) ≡ ok (length pre + 1)
skip_one pre c rest zero h lt = absurd (omega arith)
skip_one pre c rest (suc zero) h lt = absurd (omega arith)
skip_one pre c rest (suc (suc n)) h lt =
    let all = pre ++ (b' ' ∷ c ∷ rest) in
    skip_step (suc n) b' ' all (length pre) true (read_byte-append pre b' ' (c ∷ rest)) refl
    ∙ skip_step n c all (length pre + 1) false (read_byte-inside pre (b' ' ∷ []) c rest) h

-- The version behind its blank.
abbrev pub version_text : ℕ → ℕ → Block → Block
version_text major minor rest = codes "HTTP/" ++ (major ∷ b'.' ∷ minor ∷ rest)

version_at-digits :
    (pre : Block) (major minor : ℕ) (rest : Block)
    → is_digit major ≡ true
    → is_digit minor ≡ true
    → version_at (pre ++ version_text major minor rest) (length pre + 5) (length pre + 8)
      ≡ ok (some (major - b'0', minor - b'0'))
unfolding version_at
version_at-digits pre major minor rest h k =
    let all = pre ++ version_text major minor rest in
    let first : read_byte all (length pre + 5) ≡ ok major =
      read_byte-inside pre (codes "HTTP/") major (b'.' ∷ minor ∷ rest) in
    let dot : read_byte all (length pre + 5 + 1) ≡ ok b'.' =
      ap (read_byte all) (omega arith)
      ∙ read_byte-inside pre (codes "HTTP/" ++ (major ∷ [])) b'.' (minor ∷ rest) in
    let second : read_byte all (length pre + 5 + 2) ≡ ok minor =
      ap (read_byte all) (omega arith)
      ∙ read_byte-inside pre (codes "HTTP/" ++ (major ∷ b'.' ∷ [])) minor rest in
    let ends : leb (length pre + 8) (length pre + 5 + 3) ≡ true = ground arith in
    let len = length pre + 8 in
    let at = length pre + 5 in
    rw first (
      ap
        (λ x. elim x as (λ y. Result (Option (ℕ × ℕ))) [
          | false ↦ ok none
          | true ↦ read_byte all (at + 1) >>= (λ point. elim (point == b'.') [
            | false ↦ ok none
            | true ↦ read_byte all (at + 2) >>= (λ b.
                ok (if is_digit b && leb len (at + 3) then some (major - b'0', b - b'0') else none))
          ])
        ])
        h
      ∙ rw dot (
          rw second (
            ap (λ x. ok (if x && leb len (at + 3) then some (major - b'0', minor - b'0') else none))
              k
            ∙ rw ends refl)))

parse_version-text :
    (pre : Block) (major minor : ℕ) (rest : Block)
    → is_digit major ≡ true
    → is_digit minor ≡ true
    → parse_version (pre ++ (b' ' ∷ version_text major minor rest)) (length pre) (length pre + 9)
      ≡ ok (some (major - b'0', minor - b'0'))
unfolding parse_version strncmp
parse_version-text pre major minor rest h k =
    let text = version_text major minor rest in
    let all = pre ++ (b' ' ∷ text) in
    let front = pre ++ (b' ' ∷ []) in
    let split : all ≡ front ++ text = sym (append_assoc pre (b' ' ∷ []) text) in
    let place : length pre + 1 ≡ length front = omega (arith, length-append pre (b' ' ∷ [])) in
    let rounds : 1 < length pre + 9 - length pre = omega arith in
    let more : leb (length pre + 9) (length pre + 1) ≡ false = ground arith in
    let behind : offset all (length pre + 1) ≡ ok text =
      ap₂ offset split place ∙ offset-append front text in
    let version : version_at all (length pre + 1 + 5) (length pre + 9)
        ≡ ok (some (major - b'0', minor - b'0')) =
      ap₂ (λ a i. version_at a (i + 5) (length pre + 9)) split place
      ∙ ap (version_at (front ++ text) (length front + 5)) (omega (arith, place))
      ∙ version_at-digits front major minor rest h k in
    rw (skip_one pre b'H' (drop 1 text) (length pre + 9 - length pre) refl rounds)
      (rw more (rw behind version))

module _ {C : Type 0} (settings : Settings C) where
  -- A request line `method url HTTP/x.y`, each part behind one blank, the url not empty and without
  -- blanks, x and y digits: the url is handed over, the method and the version are stored, and the
  -- line passes.
  pub request_line-parts :
      (p : Parser) (m : Method) (u : ℕ) (url : Block) (major minor : ℕ) (behind : Block) (c : C)
      → Lacks b' ' (u ∷ url)
      → is_digit major ≡ true
      → is_digit minor ≡ true
      → request_line settings p
          (word_of m ++ (b' ' ∷ ((u ∷ url) ++ (b' ' ∷ version_text major minor behind))))
          (length (word_of m) + 1 + length (u ∷ url) + 9)
          c
        ≡ (settings.on_url (u ∷ url) c >>= λ d. ok (
          record p { method = m; http_major = major - b'0'; http_minor = minor - b'0' },
          d,
          true,
        ))
  unfolding request_line parse_word parse_after parse_target parse_url_at
  request_line-parts p m u url major minor behind c no_blank h k =
      let word = word_of m in
      let version = b' ' ∷ version_text major minor behind in
      let rest = (u ∷ url) ++ version in
      let all = word ++ (b' ' ∷ rest) in
      let len = length word + 1 + length (u ∷ url) + 9 in
      let front = word ++ (b' ' ∷ []) in
      let at = length word + 1 in
      let split : all ≡ front ++ rest = sym (append_assoc word (b' ' ∷ []) rest) in
      let place : at ≡ length front = omega (arith, length-append word (b' ' ∷ [])) in
      let word_found : memchr all b' ' len ≡ ok (some (length word)) =
        memchr-Lacks b' ' word rest len (word_of-Lacks m) (omega arith) in
      let url_start : skip_spaces (len - length word) all (length word) ≡ ok at =
        skip_one word u (url ++ version) (len - length word) no_blank.0 (omega arith) in
      let inside : leb len at ≡ false = ground arith in
      let from_url : offset all at ≡ ok rest = ap₂ offset split place ∙ offset-append front rest in
      let url_found : memchr rest b' ' (len - at) ≡ ok (some (length (u ∷ url))) =
        memchr-Lacks b' ' (u ∷ url) (version_text major minor behind) (len - at) no_blank
          (omega arith) in
      let url_read : read_bytes all at (length (u ∷ url)) ≡ ok (u ∷ url) =
        ap₂ (λ b i. read_bytes b i (length (u ∷ url))) split place
        ∙ read_bytes-append front (u ∷ url) version in
      let pre = front ++ (u ∷ url) in
      let split2 : all ≡ pre ++ version = split ∙ sym (append_assoc front (u ∷ url) version) in
      let place2 : at + length (u ∷ url) ≡ length pre =
        omega (arith, place, length-append front (u ∷ url)) in
      let version_found : parse_version all (at + length (u ∷ url)) len
          ≡ ok (some (major - b'0', minor - b'0')) =
        ap₂ (λ b i. parse_version b i len) split2 place2
        ∙ ap (parse_version (pre ++ version) (length pre)) (omega (arith, place2))
        ∙ parse_version-text pre major minor behind h k in
      rw word_found (
        rw (parse_method-word m rest) (
          rw url_start
            (rw inside (rw from_url (rw url_found (rw url_read (rw version_found refl)))))))
