-- ===== src/Parser/Url.antt =====
-- RST_requestparser_parse_url: where the path of a url ends and its query begins.
pub mod Laws
use librestserver.Libc.{Block, read_byte}
use librestserver.Prelude.{
  ℕ, zero, suc, ◌+◌, ◌-◌, true, false, ◌==◌, if◌then◌else◌, Result, ok, ◌>>=◌,
}

pub record UrlParts : Type 0 where
  pub plen : ℕ
  pub qoff : ℕ
  pub qlen : ℕ

-- while (at < end && *at != '?'), with the bytes left; `k` bytes were passed.
unfoldable pub path_length : ℕ → Block → ℕ → Result ℕ
unfolding read_byte
path_length zero at k = ok k
path_length (suc n) at k =
    read_byte at k >>= (λ c. elim (c == b'?') [ true ↦ ok k | false ↦ path_length n at (k + 1) ])

-- The byte behind the path is read also where the path is the whole url: there it is the
-- terminator of the builder's buffer.
unfoldable pub parse_url : Block → ℕ → Result UrlParts
unfolding path_length read_byte
parse_url at len = do
  k ← path_length len at 0
  c ← read_byte at k
  ok (
      if c == b'?'
      then record { plen = k; qoff = k + 1; qlen = len - k - 1 }
      else record { plen = k; qoff = k; qlen = len - k })
