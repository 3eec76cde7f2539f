-- ===== src/Parser/Execute/Body/Complete.antt =====
-- What becomes of a body: it is complete when it arrives whole with its last packet. A packet that
-- ends before the body does is either taken for its end, if as much is missing as it brought, or
-- leaves the loop running for ever.
use librestserver.Libc.{Block}
use librestserver.Parser.State.{Settings, finished, Parser, body}
use librestserver.Parser.Execute.{again, done, round, run, body_round}
use librestserver.Parser.Execute.Stuck.{follow, run_step}
use librestserver.Parser.Execute.Body.{InBody, bump, bump-zero, body_round-delivered}
use librestserver.Prelude.{
  subst, ℕ, zero, suc, ◌+◌, ◌-◌, ◌≤◌, ◌<◌, ◌≡◌, refl, sym, ap, ◌∙◌, ◌≢◌, true, false, [], ◌∷◌, ◌++◌,
  append_assoc, append-nil, arith, ◌==◌, if◌then◌else◌, length, length-append, no_progress, Result,
  ok, err, ◌>>=◌,
}

module _ {C : Type 0} (settings : Settings C) where
  round-body :
      (p : Parser) (c : C) → p.state ≡ body → round settings p.state p c ≡ body_round settings p c
  unfolding round
  round-body p c h = ap (λ s. round settings s p c) h

  -- The state after the bytes `bytes` of the body were taken.
  InBody-bump :
      {p : Parser} (pre bytes post : Block) (need : ℕ)
      → InBody p pre (bytes ++ post) need
      → length bytes ≤ need
      → InBody (bump p (length bytes)) (pre ++ bytes) post (need - length bytes)
  InBody-bump pre bytes post need h le = record {
    in_state = h.in_state;
    contents = record {
      exact = rw (append_assoc pre bytes post) h.contents.exact;
      counted = rw (append_assoc pre bytes post) h.contents.counted;
    };
    place = omega (arith, h.place, length-append pre bytes);
    remaining = omega (arith, h.remaining);
    small_buffer = h.small_buffer;
    small_body = h.small_body;
  }

  -- A round with no bytes at hand and some to come changes nothing.
  run_waiting :
      (fuel : ℕ) (p : Parser) (pre : Block) (need : ℕ) (c : C)
      → InBody p pre [] need
      → 0 < need
      → run settings fuel p c ≡ err no_progress
  unfolding run
  run_waiting zero p pre need c h some_left = refl
  run_waiting (suc fuel) p pre need c h some_left =
      let left : (0 == need - 0) ≡ false = ground arith in
      let same : body_round settings p c ≡ ok (again p c) =
        body_round-delivered settings p pre [] [] need c h (omega arith)
        ∙ rw left (ap (λ q. ok (again q c)) (bump-zero settings p)) in
      rw (round-body p c h.in_state ∙ same) (run_waiting fuel p pre need c h some_left)

  -- A round whose callback completes the message.
  finish_round :
      (fuel : ℕ) (q : Parser) (m : Result C)
      → ((m >>= λ e. ok (done q e)) >>= follow settings fuel) ≡ (m >>= λ e. ok (q, e))
  finish_round fuel q (ok e) = refl
  finish_round fuel q (err e) = refl

  -- The message is complete where nothing of the body is missing.
  pub run_at_end :
      (fuel : ℕ) (p : Parser) (pre post : Block) (c : C)
      → InBody p pre post 0
      → run settings (suc fuel) p c
        ≡ (settings.on_message_complete p c >>= λ e. ok (record p { state = finished }, e))
  run_at_end fuel p pre post c h =
      run_step settings fuel p c
      ∙ ap (λ r. r >>= follow settings fuel)
          (round-body p c h.in_state
            ∙ body_round-delivered settings p pre [] post 0 c h (omega arith))
      ∙ finish_round fuel (record (bump p 0) { state = finished })
          (settings.on_message_complete (bump p 0) c)
      ∙ ap (λ q. settings.on_message_complete q c >>= λ e. ok (record q { state = finished }, e))
          (bump-zero settings p)

  -- The whole rest of a body below 2 GB, at least one byte, is in the buffer: it is handed to
  -- on_body, and the message is complete after two rounds.
  pub run_complete :
      (fuel : ℕ) (p : Parser) (pre : Block) (b : ℕ) (bytes post : Block) (c : C)
      → InBody p pre ((b ∷ bytes) ++ post) (length (b ∷ bytes))
      → run settings (suc (suc fuel)) p c ≡ (
          settings.on_body (b ∷ bytes) c >>= λ d.
          settings.on_message_complete (bump p (length (b ∷ bytes))) d >>= λ e.
          ok (record (bump p (length (b ∷ bytes))) { state = finished }, e))
  run_complete fuel p pre b bytes post c h =
      let n = length (b ∷ bytes) in
      let more : (n == n - n) ≡ false = ground arith in
      let none_left : n - n ≡ 0 = omega arith in
      let later : InBody (bump p n) (pre ++ (b ∷ bytes)) post 0 =
        rw none_left at (InBody-bump pre (b ∷ bytes) post n h (omega arith)) in
      run_step settings (suc fuel) p c
      ∙ ap (λ r. r >>= follow settings (suc fuel))
          (round-body p c h.in_state
            ∙ body_round-delivered settings p pre (b ∷ bytes) post n c h
                (omega (arith, length-append (b ∷ bytes) post)))
      ∙ go n more later (settings.on_body (b ∷ bytes) c)
    where
      go :
          (n : ℕ)
          → (n == n - n) ≡ false
          → InBody (bump p n) (pre ++ (b ∷ bytes)) post 0
          → (m : Result C)
          → ((m >>= λ d.
                if n == n - n
                then (settings.on_message_complete (bump p n) d >>= λ e.
                    ok (done (record (bump p n) { state = finished }) e))
                else ok (again (bump p n) d))
              >>= follow settings (suc fuel))
            ≡ (m >>= λ d. settings.on_message_complete (bump p n) d >>= λ e.
                ok (record (bump p n) { state = finished }, e))
      go n more later (ok d) =
          rw more (run_at_end fuel (bump p n) (pre ++ (b ∷ bytes)) post d later)
      go n more later (err e) = refl

  -- A packet that ends before the body does, by any number of bytes but the number that it brought,
  -- where on_body succeeds on what it brought: the loop is still running when the fuel ends, on every
  -- amount of fuel.
  pub run_incomplete :
      (fuel : ℕ) (p : Parser) (pre : Block) (b : ℕ) (bytes : Block) (need : ℕ) (c d : C)
      → InBody p pre (b ∷ bytes) need
      → length (b ∷ bytes) < need
      → need ≢ length (b ∷ bytes) + length (b ∷ bytes)
      → settings.on_body (b ∷ bytes) c ≡ ok d
      → run settings fuel p c ≡ err no_progress
  run_incomplete zero p pre b bytes need c d h lt ne e = unfold run in refl
  run_incomplete (suc fuel) p pre b bytes need c d h lt ne e =
      let n = length (b ∷ bytes) in
      let more : (n == need - n) ≡ false = ground arith in
      let whole : InBody p pre ((b ∷ bytes) ++ []) need =
        subst (λ l. InBody p pre l need) (sym (append-nil (b ∷ bytes))) h in
      let stalled : body_round settings p c ≡ ok (again (bump p n) d) =
        body_round-delivered settings p pre (b ∷ bytes) [] need c whole
          (omega (arith, length-append (b ∷ bytes) []))
        ∙ rw e (rw more) in
      run_step settings fuel p c
      ∙ ap (λ r. r >>= follow settings fuel) (round-body p c h.in_state ∙ stalled)
      ∙ run_waiting fuel (bump p n) (pre ++ (b ∷ bytes)) (need - n) d
          (InBody-bump pre (b ∷ bytes) [] need whole (omega arith)) (omega arith)

  -- A packet after which exactly as much is missing as it brought: the message is taken to be
  -- complete, with that part of its body.
  pub run_half :
      (fuel : ℕ) (p : Parser) (pre : Block) (b : ℕ) (bytes : Block) (c : C)
      → InBody p pre (b ∷ bytes) (length (b ∷ bytes) + length (b ∷ bytes))
      → run settings (suc fuel) p c ≡ (
          settings.on_body (b ∷ bytes) c >>= λ d.
          settings.on_message_complete (bump p (length (b ∷ bytes))) d >>= λ e.
          ok (record (bump p (length (b ∷ bytes))) { state = finished }, e))
  run_half fuel p pre b bytes c h =
      let n = length (b ∷ bytes) in
      let half : (n == n + n - n) ≡ true = ground arith in
      let whole : InBody p pre ((b ∷ bytes) ++ []) (n + n) =
        subst (λ l. InBody p pre l (n + n)) (sym (append-nil (b ∷ bytes))) h in
      run_step settings fuel p c
      ∙ ap (λ r. r >>= follow settings fuel)
          (round-body p c h.in_state
            ∙ body_round-delivered settings p pre (b ∷ bytes) [] (n + n) c whole
                (omega (arith, length-append (b ∷ bytes) [])))
      ∙ go n half (settings.on_body (b ∷ bytes) c)
    where
      go :
          (n : ℕ)
          → (n == n + n - n) ≡ true
          → (m : Result C)
          → ((m >>= λ d.
                if n == n + n - n
                then (settings.on_message_complete (bump p n) d >>= λ e.
                    ok (done (record (bump p n) { state = finished }) e))
                else ok (again (bump p n) d))
              >>= follow settings fuel)
            ≡ (m >>= λ d. settings.on_message_complete (bump p n) d >>= λ e.
                ok (record (bump p n) { state = finished }, e))
      go n half (ok d) = rw half (
          finish_round fuel (record (bump p n) { state = finished })
            (settings.on_message_complete (bump p n) d))
      go n half (err e) = refl
