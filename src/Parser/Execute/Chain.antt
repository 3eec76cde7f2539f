-- ===== src/Parser/Execute/Chain.antt =====
-- One round of RST_requestparser_execute in front of the others.
use librestserver.Parser.State.{Parser, Settings, start, req_line, header}
use librestserver.Parser.Execute.{again, line_round, header_round, round, run}
use librestserver.Parser.Execute.Stuck.{follow, run_step}
use librestserver.Prelude.{ℕ, suc, ◌≡◌, ap, ◌∙◌, Result, ok, ◌>>=◌, >>=_assoc}

module _ {C : Type 0} (settings : Settings C) where
  -- A round that goes on, whatever the callbacks in it return.
  pub run_bind :
      (fuel : ℕ) (p : Parser) (c : C) (m : Result C) (q : Parser)
      → round settings p.state p c ≡ (m >>= λ d. ok (again q d))
      → run settings (suc fuel) p c ≡ (m >>= λ d. run settings fuel q d)
  run_bind fuel p c m q e =
      run_step settings fuel p c
      ∙ ap (λ r. r >>= follow settings fuel) e
      ∙ >>=_assoc m (λ d. ok (again q d)) (follow settings fuel)

  -- The cases of the switch at a state that is known.
  pub round-start :
      (p : Parser) (c : C)
      → p.state ≡ start
      → round settings p.state p c ≡ line_round settings (record p { state = req_line }) c
  unfolding round
  round-start p c h = ap (λ s. round settings s p c) h

  pub round-header :
      (p : Parser) (c : C)
      → p.state ≡ header
      → round settings p.state p c ≡ header_round settings p c
  unfolding round
  round-header p c h = ap (λ s. round settings s p c) h
