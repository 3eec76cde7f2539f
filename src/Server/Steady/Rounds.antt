-- ===== src/Server/Steady/Rounds.antt =====
-- A round of RST_selecttcpserver_server_loop from its parts.
use librestserver.Util.Set.{Group}
use librestserver.Util.Set
use librestserver.Server.State.{Server, Events, Callbacks}
use librestserver.Server.Loop.{
  Turn, again, returned, Ready, is_set, watch, highest, serve_all, release_clients, clear_finished,
  accept_client, finish_turn, accept_turn, turn,
}
use librestserver.Prelude.{
  ℕ, ◌≡◌, refl, ap, ◌∙◌, Bool, true, false, none, some, List, ◌∷◌, if◌then◌else◌, Result, ok, ◌>>=◌,
  is_positive,
}

module _ {O : Type 0} (cb : Callbacks O) (ev : Events) where
  pub finish_turn-parts :
      (ready : Ready) (s : Server) (o : O) (t : Server) (u : Server) (p : O) (v : Server)
      → clear_finished s ≡ ok t
      → serve_all cb ev ready t o ≡ ok (u, p)
      → release_clients u ≡ ok v
      → finish_turn cb ev ready s o ≡ ok (again v p)
  unfolding finish_turn
  finish_turn-parts ready s o t u p v e1 e2 e3 =
      ap
        (λ q. q >>= λ t. serve_all cb ev ready t o >>= λ (r : Server × O).
          release_clients r.0 >>= λ u. ok (again u r.1))
        e1
      ∙ ap (λ q. q >>= λ (r : Server × O). release_clients r.0 >>= λ u. ok (again u r.1)) e2
      ∙ ap (λ q. q >>= λ u. ok (again u p)) e3

  pub accept_client-parts :
      (s : Server) (o : O) (j : ℕ) (clients : Group ℕ) (u : Server) (p : O) (b : Bool)
      → Set.insert s.clients j ≡ ok clients
      → cb.on_client_accepted (record s { clients = clients }) o j ≡ ok (u, p, b)
      → accept_client cb ev s o j ≡ ok (u, p)
  unfolding accept_client
  accept_client-parts s o j clients u p b e f =
      ap
        (λ q. q >>= λ c.
          cb.on_client_accepted (record s { clients = c }) o j >>= λ (r : Server × O × Bool).
          ok (r.0, r.1))
        e
      ∙ ap (λ q. q >>= λ (r : Server × O × Bool). ok (r.0, r.1)) f

  pub turn-parts :
      (s : Server) (o : O) (readers writers : List ℕ) (mx : ℕ) (r : Result (Turn O))
      → watch s.clients ≡ ok readers
      → watch s.writing_sockets ≡ ok writers
      → highest s ≡ ok mx
      → accept_turn cb ev
          (record {
            can_read = is_set (s.serv_sock ∷ readers) mx ev.readable;
            can_write = is_set writers mx ev.writable;
          })
          s
          o
        ≡ r
      → turn cb ev s o ≡ (if is_positive ev.selected then r else ok (returned s o))
  unfolding turn
  turn-parts s o readers writers mx r e1 e2 e3 e4 =
      let answer : List ℕ → List ℕ → ℕ → Result (Turn O) = λ readers writers mx.
        if is_positive ev.selected
        then accept_turn cb ev
            (record {
              can_read = is_set (s.serv_sock ∷ readers) mx ev.readable;
              can_write = is_set writers mx ev.writable;
            })
            s o
        else ok (returned s o) in
      ap
        (λ q. q >>= λ readers.
          watch s.writing_sockets >>= λ writers. highest s >>= answer readers writers)
        e1
      ∙ ap (λ q. q >>= λ writers. highest s >>= answer readers writers) e2
      ∙ ap (λ q. q >>= answer readers writers) e3
      ∙ ap (λ q. if is_positive ev.selected then q else ok (returned s o)) e4

  pub accept_turn-accepted :
      (ready : Ready) (s : Server) (o : O) (j : ℕ) (u : Server) (p : O)
      → ready.can_read s.serv_sock ≡ true
      → ev.accepted ≡ some j
      → accept_client cb ev s o j ≡ ok (u, p)
      → accept_turn cb ev ready s o ≡ finish_turn cb ev ready u p
  unfolding accept_turn
  accept_turn-accepted ready s o j u p readable e f = rw readable (
      ap
        (λ a. elim a as (λ x. Result (Turn O)) [
          | none ↦ ok (returned s o)
          | some sock ↦
              accept_client cb ev s o sock >>= (λ (r : Server × O). finish_turn cb ev ready r.0 r.1)
        ])
        e
      ∙ ap (λ q. q >>= (λ (r : Server × O). finish_turn cb ev ready r.0 r.1)) f)

  pub accept_turn-quiet :
      (ready : Ready) (s : Server) (o : O)
      → ready.can_read s.serv_sock ≡ false
      → accept_turn cb ev ready s o ≡ finish_turn cb ev ready s o
  unfolding accept_turn
  accept_turn-quiet ready s o quiet = rw quiet refl
