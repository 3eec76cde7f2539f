-- ===== src/Server/Steady/Clients.antt =====
-- The loop of a round that serves the clients.
use librestserver.Util.Num.{IsWord}
use librestserver.Util.Vector.{Iterator, read_slot}
use librestserver.Util.Vector
use librestserver.Util.Vector.Shape.{Holds, read_slot-Holds}
use librestserver.Util.Set.{Group}
use librestserver.Util.Set
use librestserver.Util.Set.Laws.{member}
use librestserver.Util.Set.Updates.{member-append}
use librestserver.Util.Set.Max.{AllBelow}
use librestserver.Server.State.{Server, Events, Callbacks}
use librestserver.Server.Loop.{Ready, serve, serve_from, serve_all, read_turn, wants_write}
use librestserver.Server.Steady.{among}
use librestserver.Prelude.{
  subst, ℕ, zero, suc, ◌+◌, ◌<◌, ◌≡◌, refl, sym, ap, ap₂, ◌∙◌, true, false, ◌||◌, List, [], ◌∷◌,
  ◌++◌, append_assoc, arith, leb, ◌==◌, if◌then◌else◌, length, length-append,
  get_elem?-append_length, Result, ok, ◌>>=◌,
}

pub among-below : (n i : ℕ) (xs : List ℕ) → among i xs ≡ true → AllBelow n xs → i < n
unfolding member
among-below n i [] h below = cc
among-below n i (x ∷ xs) h below = ground (arith, among-below n i xs)

among-append : (i : ℕ) (xs ys : List ℕ) → among i (xs ++ ys) ≡ (among i xs || among i ys)
among-append i xs ys = member-append ◌==◌ IsWord i xs ys

pub among_first : (i x : ℕ) (xs : List ℕ) → among i (x ∷ xs) ≡ (if x == i then true else among i xs)
unfolding member
among_first i x xs = refl

pub among_none : (i : ℕ) → among i [] ≡ false
unfolding member
among_none i = refl

module _ {O : Type 0} (cb : Callbacks O) (ev : Events) (ready : Ready) where
  abbrev next_client : ℕ → ℕ → Server × O → Result (Server × O)
  next_client fuel k r = serve_from cb ev ready fuel r.0 r.1 (record { k = k })

  serve_from-step :
      (fuel : ℕ) (s : Server) (o : O) (k j : ℕ) (u : Server) (p : O)
      → leb s.clients.v.size k ≡ false
      → read_slot s.clients.v.slots k ≡ ok j
      → serve cb ev ready s o j ≡ ok (u, p)
      → serve_from cb ev ready (suc fuel) s o (record { k = k })
        ≡ serve_from cb ev ready fuel u p (record { k = k + 1 })
  unfolding serve_from Set.end Set.value Vector.next
  serve_from-step fuel s o k j u p inside e f =
      ap
        (λ b. elim b as (λ x. Result (Server × O)) [
          | true ↦ ok (s, o)
          | false ↦
              read_slot s.clients.v.slots k
              >>= (λ sock. serve cb ev ready s o sock >>= next_client fuel (k + 1))
        ])
        inside
      ∙ ap (λ q. q >>= (λ sock. serve cb ev ready s o sock >>= next_client fuel (k + 1))) e
      ∙ ap (λ q. q >>= next_client fuel (k + 1)) f

  serve_from-end :
      (fuel : ℕ) (s : Server) (o : O) (k : ℕ)
      → leb s.clients.v.size k ≡ true
      → serve_from cb ev ready (suc fuel) s o (record { k = k }) ≡ ok (s, o)
  unfolding serve_from Set.end Set.value Vector.next
  serve_from-end fuel s o k past =
      ap
        (λ b. elim b as (λ x. Result (Server × O)) [
          | true ↦ ok (s, o)
          | false ↦
              read_slot s.clients.v.slots k
              >>= (λ sock. serve cb ev ready s o sock >>= next_client fuel (k + 1))
        ])
        past

  -- A client whose socket is not ready.
  serve-idle :
      (s : Server) (o : O) (j : ℕ)
      → ready.can_read j ≡ false
      → ready.can_write j ≡ false
      → serve cb ev ready s o j ≡ ok (s, o)
  unfolding serve read_turn wants_write
  serve-idle s o j unread unwritten = rw (unread, unwritten) refl

  serve_from-idle :
      (fuel : ℕ) (s : Server) (o : O) (pre rest : List ℕ)
      → Holds s.clients.v (pre ++ rest)
      → length rest < fuel
      → ((i : ℕ) → among i rest ≡ true → (ready.can_read i ≡ false) × (ready.can_write i ≡ false))
      → serve_from cb ev ready fuel s o (record { k = length pre }) ≡ ok (s, o)
  serve_from-idle zero s o pre rest h lt idle = absurd (omega arith)
  serve_from-idle (suc fuel) s o pre [] h lt idle =
      serve_from-end fuel s o (length pre) (ground (arith, h.counted, length-append pre []))
  serve_from-idle (suc fuel) s o pre (j ∷ rest) h lt idle =
      let (unread, unwritten) = idle j (among_first j j rest ∙ ground arith) in
      let inside : leb s.clients.v.size (length pre) ≡ false =
        ground (arith, h.counted, length-append pre (j ∷ rest)) in
      let here = read_slot-Holds (length pre) h (get_elem?-append_length pre j rest) in
      let place : length pre + 1 ≡ length (pre ++ (j ∷ [])) =
        omega (arith, length-append pre (j ∷ [])) in
      serve_from-step fuel s o (length pre) j s o inside here (serve-idle s o j unread unwritten)
      ∙ ap (λ m. serve_from cb ev ready fuel s o (record { k = m })) place
      ∙ serve_from-idle fuel s o (pre ++ (j ∷ [])) rest
          (subst (λ l. Holds s.clients.v l) (sym (append_assoc pre (j ∷ []) rest)) h) (omega arith)
          (λ i there. idle i (among_first i j rest ∙ ground arith))

  -- The loop gets past clients that are not ready.
  serve_from-pass :
      (fuel : ℕ) (s : Server) (o : O) (pre mid rest : List ℕ)
      → Holds s.clients.v (pre ++ (mid ++ rest))
      → ((i : ℕ) → among i mid ≡ true → (ready.can_read i ≡ false) × (ready.can_write i ≡ false))
      → serve_from cb ev ready (length mid + fuel) s o (record { k = length pre })
        ≡ serve_from cb ev ready fuel s o (record { k = length pre + length mid })
  serve_from-pass fuel s o pre [] rest h idle =
      let rounds : length {A = ℕ} [] + fuel ≡ fuel = omega arith in
      let place : length pre ≡ length pre + 0 = omega arith in
      ap₂ (λ n m. serve_from cb ev ready n s o (record { k = m })) rounds place
  serve_from-pass fuel s o pre (j ∷ mid) rest h idle =
      let (unread, unwritten) = idle j (among_first j j mid ∙ ground arith) in
      let inside : leb s.clients.v.size (length pre) ≡ false =
        ground
          (arith, h.counted, length-append pre ((j ∷ mid) ++ rest), length-append (j ∷ mid) rest) in
      let here = read_slot-Holds (length pre) h (get_elem?-append_length pre j (mid ++ rest)) in
      let place : length pre + 1 ≡ length (pre ++ (j ∷ [])) =
        omega (arith, length-append pre (j ∷ [])) in
      let more : length (j ∷ mid) + fuel ≡ suc (length mid + fuel) = omega arith in
      let behind : length (pre ++ (j ∷ [])) + length mid ≡ length pre + length (j ∷ mid) =
        omega (arith, length-append pre (j ∷ [])) in
      ap (λ n. serve_from cb ev ready n s o (record { k = length pre })) more
      ∙ serve_from-step (length mid + fuel) s o (length pre) j s o inside here
          (serve-idle s o j unread unwritten)
      ∙ ap (λ m. serve_from cb ev ready (length mid + fuel) s o (record { k = m })) place
      ∙ serve_from-pass fuel s o (pre ++ (j ∷ [])) mid rest
          (subst (λ l. Holds s.clients.v l) (sym (append_assoc pre (j ∷ []) (mid ++ rest))) h)
          (λ i there. idle i (among_first i j mid ∙ ground arith))
      ∙ ap (λ m. serve_from cb ev ready fuel s o (record { k = m })) behind

  -- A round in which no client is ready changes nothing.
  pub serve_all-idle :
      (s : Server) (o : O) (cs : List ℕ)
      → Holds s.clients.v cs
      → ((i : ℕ) → among i cs ≡ true → (ready.can_read i ≡ false) × (ready.can_write i ≡ false))
      → serve_all cb ev ready s o ≡ ok (s, o)
  unfolding serve_all Vector.begin
  serve_all-idle s o cs h idle =
      serve_from-idle (suc s.clients.v.size) s o [] cs h (omega (arith, h.counted)) idle

  -- A round in which one client is ready.
  pub serve_all-one :
      (s : Server) (o : O) (before after : List ℕ) (j : ℕ) (u : Server) (p : O)
      → Holds s.clients.v (before ++ (j ∷ after))
      → ((i : ℕ) → among i before ≡ true → (ready.can_read i ≡ false) × (ready.can_write i ≡ false))
      → ((i : ℕ) → among i after ≡ true → (ready.can_read i ≡ false) × (ready.can_write i ≡ false))
      → serve cb ev ready s o j ≡ ok (u, p)
      → Holds u.clients.v (before ++ (j ∷ after))
      → serve_all cb ev ready s o ≡ ok (u, p)
  unfolding serve_all Vector.begin
  serve_all-one s o before after j u p h idle idle2 served kept =
      let size : suc s.clients.v.size ≡ length before + suc (suc (length after)) =
        omega (arith, h.counted, length-append before (j ∷ after)) in
      let first : length {A = ℕ} [] + length before ≡ length before = omega arith in
      let inside : leb s.clients.v.size (length before) ≡ false =
        ground (arith, h.counted, length-append before (j ∷ after)) in
      let here = read_slot-Holds (length before) h (get_elem?-append_length before j after) in
      let place : length before + 1 ≡ length (before ++ (j ∷ [])) =
        omega (arith, length-append before (j ∷ [])) in
      ap (λ n. serve_from cb ev ready n s o (record { k = 0 })) size
      ∙ serve_from-pass (suc (suc (length after))) s o [] before (j ∷ after) h idle
      ∙ ap (λ m. serve_from cb ev ready (suc (suc (length after))) s o (record { k = m })) first
      ∙ serve_from-step (suc (length after)) s o (length before) j u p inside here served
      ∙ ap (λ m. serve_from cb ev ready (suc (length after)) u p (record { k = m })) place
      ∙ serve_from-idle (suc (length after)) u p (before ++ (j ∷ [])) after
          (subst (λ l. Holds u.clients.v l) (sym (append_assoc before (j ∷ []) after)) kept)
          (omega arith) idle2
