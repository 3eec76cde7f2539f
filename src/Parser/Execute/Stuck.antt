-- ===== src/Parser/Execute/Stuck.antt =====
-- A parser that has finished a message does not return from another call.
use librestserver.Libc.{Block}
use librestserver.Util.StringBuilder.Laws.{Spells, append_n-all}
use librestserver.Parser.State.{Parser, Settings, finished}
use librestserver.Parser.Execute.{Round, again, done, returned, again, done, round, run, execute}
use librestserver.Prelude.{
  ℕ, zero, suc, ◌≡◌, refl, ap, false, ◌∷◌, arith, ◌==◌, length, no_progress, Result, ok, err, ◌>>=◌,
}

module _ {C : Type 0} (settings : Settings C) where
  run_finished :
      (fuel : ℕ) (p : Parser) (c : C) → p.state ≡ finished → run settings fuel p c ≡ err no_progress
  unfolding run round
  run_finished zero p c h = refl
  run_finished (suc fuel) p c h = rw (ap (λ s. round settings s p c) h) (run_finished fuel p c h)

  -- What the loop does with a round's result.
  abbrev pub follow : ℕ → Round C → Result (Parser × C)
  follow fuel (again q d) = run settings fuel q d
  follow fuel (done q d) = ok (q, d)
  follow fuel (returned q d) = ok (q, d)

  pub run_step :
      (fuel : ℕ) (p : Parser) (c : C)
      → run settings (suc fuel) p c ≡ (round settings p.state p c >>= follow fuel)
  unfolding run
  run_step fuel p c = go (round settings p.state p c)
    where
      go :
          (r : Result (Round C))
          → (r >>= λ x. elim x [
            | again q d ↦ run settings fuel q d
            | done q d ↦ ok (q, d)
            | returned q d ↦ ok (q, d)
          ])
            ≡ (r >>= follow fuel)
      go (ok (again q d)) = refl
      go (ok (done q d)) = refl
      go (ok (returned q d)) = refl
      go (err e) = refl

  -- Once a message is complete, a call with more bytes never returns: on every amount of fuel the
  -- loop is still running when the fuel ends.
  pub execute_finished :
      (fuel : ℕ) (p : Parser) (s : Block) (b : ℕ) (bytes : Block) (c : C)
      → p.state ≡ finished
      → Spells p.buf s
      → execute settings fuel p (b ∷ bytes) (length (b ∷ bytes)) c ≡ err no_progress
  unfolding execute
  execute_finished fuel p s b bytes c h sp =
      let (out, e, _) = append_n-all (b ∷ bytes) sp in
      let some_bytes : (suc (length bytes) == 0) ≡ false = ground arith in
      rw some_bytes (rw e (run_finished fuel (record p { buf = out }) c h))
