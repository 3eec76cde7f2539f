-- ===== src/Parser/Execute/Body.antt =====
-- The body of a message, for sizes that an int holds: what one round of the loop does with the bytes
-- at hand.
pub mod Complete
use librestserver.Libc.{Block, read_bytes}
use librestserver.Util.Num.{min_int}
use librestserver.Util.StringBuilder.Laws.{Spells}
use librestserver.Parser.State.{Settings, finished, Parser, body}
use librestserver.Parser.Execute.{again, done, take_body, body_round, body_bytes}
use librestserver.Prelude.{
  ℕ, suc, ◌+◌, ◌-◌, ◌%◌, ◌^◌, ◌<◌, min, ◌≡◌, refl, sym, ap, ap₂, ◌∙◌, true, false, [], ◌∷◌, ◌++◌,
  append_assoc, arith, leb, ◌==◌, if◌then◌else◌, length, length-append, take-length-append,
  drop-length-append, Result, ok, err, ◌>>=◌, ◌>>◌,
}

-- The parser is in the body: behind the bytes `pre` of the buffer, `rest` is not read yet, and
-- `need` bytes of the body are still to come.
pub record InBody (p : Parser) (pre rest : Block) (need : ℕ) : Type 0 where
  pub in_state : p.state ≡ body
  pub contents : Spells p.buf (pre ++ rest)
  pub place : p.last_pos ≡ length pre
  pub remaining : p.content_length ≡ p.body_read + need
  pub small_buffer : p.buf.len < 2 ^ 31
  pub small_body : p.content_length < 2 ^ 31

-- The parser when `n` more bytes of the body are read.
abbrev pub bump : Parser → ℕ → Parser
bump p n = record p { body_read = p.body_read + n; last_pos = p.last_pos + n }

have_bytes :
    {p : Parser} {pre rest : Block} {need : ℕ}
    → InBody p pre rest need
    → p.buf.len ≡ p.last_pos + length rest
have_bytes {p} {pre} {rest} h = omega (arith, h.contents.counted, length-append pre rest, h.place)

body_bytes-min :
    {p : Parser} {pre rest : Block} {need : ℕ}
    → InBody p pre rest need
    → body_bytes p ≡ min (length rest) need
unfolding body_bytes min_int
body_bytes-min h = ground (arith, have_bytes h)

module _ {C : Type 0} (settings : Settings C) where
  -- on_body is called only with bytes.
  abbrev pub delivered : Block → C → Result C
  delivered [] c = ok c
  delivered (b ∷ bytes) c = settings.on_body (b ∷ bytes) c

  pub bump-zero : (p : Parser) → bump p 0 ≡ p
  bump-zero p = ap₂ (λ r l. record p { body_read = r; last_pos = l }) (omega arith) (omega arith)

  read_bytes-middle :
      (pre bytes post : Block)
      → read_bytes (pre ++ (bytes ++ post)) (length pre) (length bytes) ≡ ok bytes
  unfolding read_bytes
  read_bytes-middle pre bytes post =
      let fits : leb (length pre + length bytes) (length (pre ++ (bytes ++ post))) ≡ true =
        ground (arith, length-append pre (bytes ++ post), length-append bytes post) in
      rw fits (rw (drop-length-append pre (bytes ++ post)) (rw (take-length-append bytes post)))

  -- Reading the next bytes of the body hands them to on_body.
  take_body-delivered :
      (p : Parser) (pre bytes post : Block) (c : C)
      → Spells p.buf (pre ++ (bytes ++ post))
      → p.last_pos ≡ length pre
      → p.body_read + length bytes < 2 ^ 31
      → p.last_pos + length bytes < 2 ^ 31
      → take_body settings p (length bytes) c
        ≡ (delivered bytes c >>= λ d. ok (bump p (length bytes), d))
  unfolding take_body
  take_body-delivered p pre [] post c s e h k = rw (bump-zero p)
  take_body-delivered p pre (b ∷ bytes) post c s e h k =
      let some_bytes : (suc (length bytes) == 0) ≡ false = ground arith in
      let block : p.buf.buf ≡ pre ++ ((b ∷ bytes) ++ (post ++ (0 ∷ []))) =
        s.exact
        ∙ append_assoc pre ((b ∷ bytes) ++ post) (0 ∷ [])
        ∙ ap (λ l. pre ++ l) (append_assoc (b ∷ bytes) post (0 ∷ [])) in
      let bytes_read : read_bytes p.buf.buf p.last_pos (length (b ∷ bytes)) ≡ ok (b ∷ bytes) =
        rw (block, e) (read_bytes-middle pre (b ∷ bytes) (post ++ (0 ∷ []))) in
      let read : (p.body_read + suc (length bytes)) % 2 ^ 64 ≡ p.body_read + suc (length bytes) =
        omega arith in
      let moved : (p.last_pos + suc (length bytes)) % 2 ^ 32 ≡ p.last_pos + suc (length bytes) =
        omega arith in
      rw some_bytes (rw bytes_read (rw (read, moved)))

  -- One round: `bytes` is as much of the buffer as the body needs. The message is complete when
  -- the bytes taken are as many as are still missing after them.
  pub body_round-delivered :
      (p : Parser) (pre bytes post : Block) (need : ℕ) (c : C)
      → InBody p pre (bytes ++ post) need
      → length bytes ≡ min (length (bytes ++ post)) need
      → body_round settings p c ≡ (
          delivered bytes c >>= λ d.
          if length bytes == need - length bytes
          then (settings.on_message_complete (bump p (length bytes)) d >>= λ e.
              ok (done (record (bump p (length bytes)) { state = finished }) e))
          else ok (again (bump p (length bytes)) d))
  unfolding body_round
  body_round-delivered p pre bytes post need c h e =
      let taken : body_bytes p ≡ length bytes = body_bytes-min h ∙ sym e in
      let step =
        take_body-delivered p pre bytes post c h.contents h.place
          (omega (arith, h.remaining, h.small_body))
          (omega (arith, have_bytes h, h.small_buffer, length-append bytes post)) in
      let left : (p.content_length + 2 ^ 64 - (p.body_read + length bytes)) % 2 ^ 64
          ≡ need - length bytes =
        omega (arith, h.remaining, h.small_body) in
      rw taken (rw step (finish (delivered bytes c) left))
    where
      finish :
          (m : Result C)
          → (p.content_length + 2 ^ 64 - (p.body_read + length bytes)) % 2 ^ 64
            ≡ need - length bytes
          → ((m >>= λ d. ok (bump p (length bytes), d)) >>= λ (r : Parser × C).
              if length bytes == (r.0.content_length + 2 ^ 64 - r.0.body_read) % 2 ^ 64
              then (settings.on_message_complete r.0 r.1 >>= λ e.
                  ok (done (record (r.0) { state = finished }) e))
              else ok (again r.0 r.1))
            ≡ (m >>= λ d.
                if length bytes == need - length bytes
                then (settings.on_message_complete (bump p (length bytes)) d >>= λ e.
                    ok (done (record (bump p (length bytes)) { state = finished }) e))
                else ok (again (bump p (length bytes)) d))
      finish (ok d) left = rw left
      finish (err e) left = refl
