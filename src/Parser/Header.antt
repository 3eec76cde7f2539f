-- ===== src/Parser/Header.antt =====
-- RST_requestparser_header: one line of the header, of `len` bytes. It returns 0 (`false`) at a
-- second colon, or where nothing but blanks follows the colon.
pub mod Laws
pub mod Lines
pub mod Names
pub mod Pairs
pub mod Length
use librestserver.Libc.{Block, read_byte, read_bytes, offset, strncmp, literal, scan_int}
use librestserver.Parser.State.{Parser, Settings}
use librestserver.Prelude.{
  ℕ, zero, suc, ◌+◌, ◌-◌, Bool, true, false, ◌||◌, Option, none, some, [], ◌∷◌, ◌++◌, ◌==◌,
  if◌then◌else◌, take, out_of_bounds, Result, ok, ◌>>=◌, ◌>>◌, from_option, is_zero, to_unsigned,
}

-- The variables of the loop: `start_from` is `none` for -1.
pub record Scan : Type 0 where
  pub field_finished : Bool
  pub start_from : Option ℕ
  pub is_content_length : Bool

abbrev pub fresh_scan : Scan
fresh_scan = record { field_finished = false; start_from = none; is_content_length = false }

-- if (at[i] != ' ' && start_from == -1) start_from = i;
abbrev pub note_start : Scan → ℕ → ℕ → Scan
note_start s i c = elim s.start_from [
  | some k ↦ s
  | none ↦ if c == b' ' then s else record s { start_from = some i }
]

-- i - start_from == CONTENT_LENGTH_STRLEN && strncmp(at + start_from, "Content-Length", 14) == 0
unfoldable pub names_content_length : Block → ℕ → ℕ → Result Bool
unfolding offset strncmp
names_content_length at k i =
    if i - k == 14
    then (offset at k >>= λ rest.
        strncmp rest (literal "Content-Length") 14 >>= λ z. ok (is_zero z))
    else ok false

-- The bytes of the line that sscanf gets: up to 15, and no further than a terminator.
unfoldable pub up_to_nul : Block → Block
up_to_nul [] = []
up_to_nul (c ∷ s) = if c == 0 then [] else c ∷ up_to_nul s

-- `content_length` as sscanf leaves it: a negative number is stored as an unsigned one.
unfoldable pub scan_length : ℕ → Block → ℕ
unfolding scan_int up_to_nul
scan_length old value = elim (scan_int (up_to_nul (take 15 value) ++ (b' ' ∷ []))) [
  | none ↦ old
  | some n ↦ to_unsigned 64 n
]

module _ {C : Type 0} (settings : Settings C) where
  -- The branch `at[i] == ':'` with the name's start known.
  unfoldable pub finish_field : Block → Scan → ℕ → ℕ → C → Result (Option (Scan × C))
  unfolding read_bytes names_content_length
  finish_field at s k i c = if s.field_finished then ok none else (do
    name ← read_bytes at k (i - k)
    d ← settings.on_header_field name c
    is_length ← names_content_length at k i
    ok (
        some (
          record {
            field_finished = true;
            start_from = none;
            is_content_length = is_length || s.is_content_length;
          },
          d,
        )))

  -- The body of the loop. At a colon `start_from` is set, since a colon is no blank.
  unfoldable pub scan_byte : Block → Scan → ℕ → C → Result (Option (Scan × C))
  unfolding read_byte finish_field
  scan_byte at s i c = do
    b ← read_byte at i
    let t = note_start s i b
    if b == b':'
        then (from_option t.start_from out_of_bounds >>= λ k. finish_field at t k i c)
        else ok (some (t, c))

  -- What the loop makes of one round's result; `none` is the return of 0.
  unfoldable pub scan_from : ℕ → Block → Scan → ℕ → C → Result (C × Option Scan)
  unfolding scan_byte
  scan_from zero at s i c = ok (c, some s)
  scan_from (suc n) at s i c =
      scan_byte at s i c
      >>= (λ r. elim r [ none ↦ ok (c, none) | some (t, d) ↦ scan_from n at t (i + 1) d ])

  -- What follows the loop.
  unfoldable pub finish_value : Parser → Block → ℕ → C → Option Scan → Result (Parser × C × Bool)
  unfolding read_bytes scan_length
  finish_value p at len c none = ok (p, c, false)
  finish_value p at len c (some s) = elim s.start_from [
    | none ↦ ok (p, c, false)
    | some k ↦ read_bytes at k (len - k) >>= (λ value. settings.on_header_value value c >>= λ d.
        ok (
          if s.is_content_length
              then record p { content_length = scan_length p.content_length value }
              else p,
          d,
          true,
        ))
  ]

  -- The last component but one is the returned flag, the last is `*last_header`.
  unfoldable pub header_line : Parser → Block → ℕ → C → Result (Parser × C × Bool × Bool)
  unfolding scan_from finish_value
  header_line p at len c =
      if len == 0
      then ok (p, c, true, true)
      else (scan_from len at fresh_scan 0 c >>= λ (r : C × Option Scan).
          finish_value p at len r.0 r.1 >>= λ (t : Parser × C × Bool). ok (t.0, t.1, t.2, false))
