-- ===== src/Parser/Execute.antt =====
-- RST_requestparser_execute: the state machine, one round of its loop at a time.
pub mod Stuck
pub mod Body
pub mod Rounds
pub mod Steps
pub mod Request
pub mod Headers
pub mod Message
pub mod Split
pub mod Chain
use librestserver.Libc.{Block, read_bytes, literal}
use librestserver.Util.Num.{min_int}
use librestserver.Util.StringBuilder
use librestserver.Parser.State.{
  State, start, req_line, header, body, finished, Parser, Settings, size_sub, go_until_eq,
}
use librestserver.Parser.Line.{request_line}
use librestserver.Parser.Header.{header_line}
use librestserver.Prelude.{
  ℕ, zero, suc, ◌+◌, ◌-◌, ◌%◌, ◌^◌, Bool, none, some, ◌==◌, if◌then◌else◌, no_progress, Result, ok,
  err, ◌>>=◌, ◌>>◌, to_int, to_unsigned,
}

-- What a round of the loop ends with: another round, `loop_done`, or the return of PARSER_ASSERT.
pub data Round (C : Type 0) : Type 0 where
  again : Parser → C → Round C
  done : Parser → C → Round C
  returned : Parser → C → Round C

-- RST_string_builder_slice_inplace(buf, pos + 2, buf->len - pos - 2), then last_pos = 0.
unfoldable pub drop_line : Parser → ℕ → Result Parser
unfolding StringBuilder.slice_inplace
drop_line p at = do
  buf ← StringBuilder.slice_inplace p.buf (at + 2) (p.buf.len - at - 2)
  ok (record p { buf = buf; last_pos = 0 })

-- `RST_min(buf->len - last_pos, (size_t)(content_length - body_read))`: the arguments go through
-- int, and the result back to size_t.
unfoldable pub body_bytes : Parser → ℕ
unfolding min_int
body_bytes p = to_unsigned 32 (
    min_int (to_int (size_sub p.buf.len p.last_pos))
      (to_int ((p.content_length + 2 ^ 64 - p.body_read) % 2 ^ 64)))

module _ {C : Type 0} (settings : Settings C) where
  unfoldable pub line_round : Parser → C → Result (Round C)
  unfolding go_until_eq request_line drop_line
  line_round p c = go_until_eq p (literal "\r\n") >>= (λ found. elim found [
    | none ↦ ok (done p c)
    | some k ↦
        (settings.on_message_begin p c >>= λ d.
        request_line settings p p.buf.buf (size_sub k p.last_pos) d >>= λ (r : Parser × C × Bool).
        if r.2
        then (drop_line r.0 k >>= λ q. ok (again (record q { state = header }) r.1))
        else ok (returned r.0 r.1))
  ])

  -- The result of RST_requestparser_header is ignored.
  unfoldable pub header_round : Parser → C → Result (Round C)
  unfolding go_until_eq header_line drop_line
  header_round p c = go_until_eq p (literal "\r\n") >>= (λ found. elim found [
    | none ↦ ok (done p c)
    | some k ↦
        (header_line settings p p.buf.buf (size_sub k p.last_pos) c
          >>= λ (r : Parser × C × Bool × Bool). drop_line r.0 k >>= λ q.
              if r.3
              then (settings.on_headers_complete q r.1 >>= λ d.
                  ok (again (record q { state = body }) d))
              else ok (again q r.1))
  ])

  -- if (nbytes > 0) { on_body; body_read += nbytes; last_pos += nbytes; }
  unfoldable pub take_body : Parser → ℕ → C → Result (Parser × C)
  unfolding read_bytes
  take_body p n c =
      if n == 0
      then ok (p, c)
      else (read_bytes p.buf.buf p.last_pos n >>= λ bytes. settings.on_body bytes c >>= λ d. ok (
        record p { body_read = (p.body_read + n) % 2 ^ 64; last_pos = (p.last_pos + n) % 2 ^ 32 },
        d,
      ))

  -- The test compares `nbytes` with what is left after `nbytes` were taken.
  unfoldable pub body_round : Parser → C → Result (Round C)
  unfolding body_bytes take_body
  body_round p c =
      let n = body_bytes p in
      take_body p n c >>= λ (r : Parser × C).
      if n == (r.0.content_length + 2 ^ 64 - r.0.body_read) % 2 ^ 64
      then (settings.on_message_complete r.0 r.1 >>= λ d.
          ok (done (record (r.0) { state = finished }) d))
      else ok (again r.0 r.1)

  -- The switch. `start` falls through to `req_line`, and there is no case for `finished`.
  unfoldable pub round : State → Parser → C → Result (Round C)
  unfolding line_round header_round body_round
  round start p c = line_round (record p { state = req_line }) c
  round req_line p c = line_round p c
  round header p c = header_round p c
  round body p c = body_round p c
  round finished p c = ok (again p c)

  -- The loop on fuel.
  unfoldable pub run : ℕ → Parser → C → Result (Parser × C)
  unfolding round
  run zero p c = err no_progress
  run (suc fuel) p c = round p.state p c >>= (λ r. elim r [
    | again q d ↦ run fuel q d
    | done q d ↦ ok (q, d)
    | returned q d ↦ ok (q, d)
  ])

  -- The function returns 0 on every path, so only the states are returned here.
  unfoldable pub execute : ℕ → Parser → Block → ℕ → C → Result (Parser × C)
  unfolding run StringBuilder.append_n
  execute fuel p bytes len c =
      if len == 0
      then ok (p, c)
      else (StringBuilder.append_n p.buf bytes len >>= λ buf. run fuel (record p { buf = buf }) c)
