-- ===== src/Parser/Line.antt =====
-- RST_requestparser_request_line: method, url and version. It returns 0 (`none`) at the first test
-- that fails; the callback on_url may have been called by then.
pub mod Laws
use librestserver.Libc.{Block, memchr, strncmp, offset, read_byte, read_bytes, literal, is_digit}
use librestserver.Parser.State.{Parser, Settings, Method, get, post, put, delete}
use Prim.Native.String.{String}
use librestserver.Prelude.{
  ℕ, zero, suc, ◌+◌, ◌-◌, ◌/◌, Bool, true, false, ◌&&◌, Option, none, some, leb, ◌==◌,
  if◌then◌else◌, Result, ok, ◌>>=◌, ◌>>◌, is_zero,
}

-- strncmp(at, "GET", pos - at) == 0, and so on. The length is that of the word in the request, so
-- every prefix of a method's name passes.
unfoldable pub method_named : Block → ℕ → String → Result Bool
unfolding strncmp
method_named at n name = do z ← strncmp at (literal name) n; ok (is_zero z)

unfoldable pub parse_method : Block → ℕ → Result (Option Method)
unfolding method_named
parse_method at n = do
  is_get ← method_named at n "GET"
  is_post ← method_named at n "POST"
  is_put ← method_named at n "PUT"
  is_delete ← method_named at n "DELETE"
  ok (
      if is_get
      then some get
      else if is_post
      then some post
      else if is_put
      then some put
      else if is_delete
      then some delete
      else none)

-- while (pos < at + len && *pos == ' ') pos++, with the rounds left.
unfoldable pub skip_spaces : ℕ → Block → ℕ → Result ℕ
unfolding read_byte
skip_spaces zero at k = ok k
skip_spaces (suc n) at k =
    read_byte at k >>= (λ c. elim (c == b' ') [ true ↦ skip_spaces n at (k + 1) | false ↦ ok k ])

-- isdigit(*pos) && *(pos + 1) == '.' && isdigit(*(pos + 2)) && pos + 3 >= at + len. As in the
-- source, a later byte is read only if the tests before it pass.
unfoldable pub version_at : Block → ℕ → ℕ → Result (Option (ℕ × ℕ))
unfolding read_byte is_digit
version_at at k len = read_byte at k >>= (λ a. elim (is_digit a) [
  | false ↦ ok none
  | true ↦ read_byte at (k + 1) >>= (λ dot. elim (dot == b'.') [
    | false ↦ ok none
    | true ↦
        read_byte at (k + 2)
        >>= (λ b. ok (if is_digit b && leb len (k + 3) then some (a - b'0', b - b'0') else none))
  ])
])

-- What follows the url, from the blank at `k` on.
unfoldable pub parse_version : Block → ℕ → ℕ → Result (Option (ℕ × ℕ))
unfolding skip_spaces offset strncmp version_at
parse_version at k len = do
  v ← skip_spaces (len - k) at k
  if leb len v
      then ok none
      else (offset at v >>= λ rest. strncmp rest (literal "HTTP/") 5 >>= λ z.
          if is_zero z then version_at at (v + 5) len else ok none)

module _ {C : Type 0} (settings : Settings C) where
  -- The version behind the url, once on_url has been called.
  abbrev pub with_version : Parser → C → Option (ℕ × ℕ) → Parser × C × Bool
  with_version p c none = (p, c, false)
  with_version p c (some (major, minor)) =
      (record p { http_major = major; http_minor = minor }, c, true)

  unfoldable pub parse_url_at : Parser → Block → ℕ → ℕ → C → Option ℕ → Result (Parser × C × Bool)
  unfolding read_bytes parse_version
  parse_url_at p at u len c none = ok (p, c, false)
  parse_url_at p at u len c (some n) = do
    url ← read_bytes at u n
    d ← settings.on_url url c
    version ← parse_version at (u + n) len
    ok (with_version p d version)

  -- What follows the method, which ends at `k`.
  unfoldable pub parse_target : Parser → Block → ℕ → ℕ → C → Result (Parser × C × Bool)
  unfolding skip_spaces memchr offset parse_url_at
  parse_target p at k len c = do
    u ← skip_spaces (len - k) at k
    if leb len u
        then ok (p, c, false)
        else (offset at u >>= λ rest. memchr rest b' ' (len - u) >>= parse_url_at p at u len c)

  unfoldable pub parse_after :
      Parser → Block → ℕ → ℕ → C → Option Method → Result (Parser × C × Bool)
  unfolding parse_target
  parse_after p at k len c none = ok (p, c, false)
  parse_after p at k len c (some m) = parse_target (record p { method = m }) at k len c

  unfoldable pub parse_word : Parser → Block → ℕ → C → Option ℕ → Result (Parser × C × Bool)
  unfolding parse_method parse_after
  parse_word p at len c none = ok (p, c, false)
  parse_word p at len c (some k) = parse_method at k >>= parse_after p at k len c

  unfoldable pub request_line : Parser → Block → ℕ → C → Result (Parser × C × Bool)
  unfolding memchr parse_word
  request_line p at len c = memchr at b' ' len >>= parse_word p at len c
