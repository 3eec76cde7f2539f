-- ===== src/Parser/State.antt =====
-- The state of the parser, its callbacks, and the search for the end of a line.
use librestserver.Libc.{Block, strlen, strncmp, offset}
use librestserver.Util.StringBuilder.{StringBuilder}
use librestserver.Util.StringBuilder
use librestserver.Prelude.{
  ℕ, zero, suc, ◌+◌, ◌-◌, ◌%◌, ◌^◌, true, false, Option, none, some, leb, no_progress, Result, ok,
  err, ◌>>=◌, is_zero,
}

-- RST_ParserState
pub data State : Type 0 where
  start req_line header body finished : State

-- The values of http_method that the parser sets, and the value 0 of a fresh parser's field,
-- which http_parser.h names DELETE.
pub data Method : Type 0 where
  delete get post put : Method

pub record Parser : Type 0 where
  pub state : State
  pub last_pos : ℕ
  pub buf : StringBuilder
  pub error : ℕ
  pub method : Method
  pub http_major : ℕ
  pub http_minor : ℕ
  pub content_length : ℕ
  pub body_read : ℕ

-- RST_RequestParserSettings, without `on_status`, which nothing calls. A `DataCb` gets the bytes
-- `at[0..length)`. Their results are ignored by the parser.
pub record Settings (C : Type 0) : Type 0 where
  pub on_message_begin : Parser → C → Result C
  pub on_url : Block → C → Result C
  pub on_header_field : Block → C → Result C
  pub on_header_value : Block → C → Result C
  pub on_headers_complete : Parser → C → Result C
  pub on_body : Block → C → Result C
  pub on_message_complete : Parser → C → Result C

-- The fields that RST_requestparser_init leaves alone hold zeros, which is what the allocator's
-- pool consists of: state 0 is `start`.
unfoldable pub init : Result Parser
unfolding StringBuilder.init
init = do
  buf ← StringBuilder.init
  ok (record {
    state = start;
    last_pos = 0;
    buf = buf;
    error = 0;
    method = delete;
    http_major = 0;
    http_minor = 0;
    content_length = 0;
    body_read = 0;
  })

-- `a - b` on size_t.
abbrev pub size_sub : ℕ → ℕ → ℕ
size_sub a b = (a % 2 ^ 32 + 2 ^ 32 - b % 2 ^ 32) % 2 ^ 32

-- while (cur_pos + len - 1 < buf->len): the first place from `cur` on where the pattern stands.
-- The pattern is not empty, so the test is `cur_pos + len <= buf->len`.
unfoldable pub go_from : ℕ → Block → ℕ → Block → ℕ → ℕ → Result (Option ℕ)
unfolding offset strncmp
go_from zero buf n pat len cur = err no_progress
go_from (suc fuel) buf n pat len cur = elim (leb (cur + len) n) [
  | false ↦ ok none
  | true ↦ offset buf cur >>= (λ at. strncmp at pat len >>= (λ z. elim (is_zero z) [
    | true ↦ ok (some cur)
    | false ↦ go_from fuel buf n pat len (cur + 1)
  ]))
]

-- RST_requestparser_go_until_eq: the option is the flag with `*pos`.
unfoldable pub go_until_eq : Parser → Block → Result (Option ℕ)
unfolding go_from strlen
go_until_eq p pat = do
  len ← strlen pat
  go_from (suc p.buf.len) p.buf.buf p.buf.len pat len p.last_pos
