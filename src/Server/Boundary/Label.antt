-- ===== src/Server/Boundary/Label.antt =====
-- internal/server/stdlib_boundary.go: the status that labels a count.
use wavefront.Base.{
  ℕ, String, ◌≡◌, ◌⊎◌, refl, sym, ap, ◌∙◌, true, false, List, [], ◌∷◌, Option, none, some, eqb,
  eqb_iff, All, arith, subst, inl, inr, some-injective, Bool-cases,
}
use wavefront.Base.Dict.{lookup, put, lookup-put}
use wavefront.Json.{Bytes}
use wavefront.Server.StatusLine.{parse_status_line}
use wavefront.Server.Boundary.{
  SniffingConn, write_conn, Boundary, Event, accepted, handler_entered, written, state_changed,
  state_new, state_active, write_to, state_idle, state_hijacked, state_closed, run, step,
  conn_state, mark_handler_seen, status_or_unknown,
}

-- Events on one connection behind its acceptance.
abbrev IsLater : Event → Type 0
IsLater accepted = ⊥
IsLater handler_entered = Unit
IsLater (state_changed state) = Unit
IsLater (written p) = Unit

abbrev pub AreLater : ℕ → List (ℕ × Event) → Type 0
AreLater c events = All (λ (d, e). (eqb c d ≡ false) ⊎ IsLater e) events

module _ (itoa : ℕ → String) where
  write_conn-done :
      (conn : SniffingConn) (p : Bytes) → conn.once_done ≡ true → write_conn conn p ≡ conn
  unfolding write_conn
  write_conn-done conn [] t = refl
  write_conn-done conn (b ∷ p) t = rw t refl

  put-conns :
      (c : ℕ) (conn : SniffingConn) (d : ℕ) (new : SniffingConn) (conns : List (ℕ × SniffingConn))
      → eqb c d ≡ false
      → lookup eqb c conns ≡ some conn
      → lookup eqb c (put eqb d new conns) ≡ some conn
  put-conns c conn d new conns h k =
      let other : eqb d c ≡ false = ground (arith, h) in
      lookup-put eqb eqb_iff d c new conns ∙ rw other k

  rewritten :
      (c : ℕ) (conn : SniffingConn) (d : ℕ) (p : Bytes) (conns : List (ℕ × SniffingConn))
      (found : Option SniffingConn)
      → conn.once_done ≡ true
      → lookup eqb d conns ≡ found
      → lookup eqb c conns ≡ some conn
      → lookup eqb c (write_to itoa d p found conns) ≡ some conn
  rewritten c conn d p conns none t f k = k
  rewritten c conn d p conns (some old) t f k = elim (Bool-cases (eqb d c)) [
    | inl e ↦
        let same : old ≡ conn =
          some-injective
            (sym f ∙ (subst (λ j. lookup eqb j conns ≡ some conn) (sym ((eqb_iff d c).0 e)) k)) in
        lookup-put eqb eqb_iff d c (write_conn old p) conns
        ∙ rw e (ap some (ap (λ x. write_conn x p) same ∙ write_conn-done conn p t))
    | inr e ↦ put-conns c conn d (write_conn old p) conns (ground (arith, e)) k
  ]

  step-conns :
      (c : ℕ) (conn : SniffingConn) (d : ℕ) (e : Event) (s : Boundary)
      → conn.once_done ≡ true
      → (eqb c d ≡ false) ⊎ IsLater e
      → lookup eqb c s.conns ≡ some conn
      → lookup eqb c (step itoa d e s).conns ≡ some conn
  unfolding step conn_state mark_handler_seen
  step-conns c conn d accepted s t (inl h) k = put-conns c conn d _ s.conns h k
  step-conns c conn d accepted s t (inr h) k = absurd h
  step-conns c conn d handler_entered s t h k = k
  step-conns c conn d (state_changed state_new) s t h k = k
  step-conns c conn d (state_changed state_active) s t h k = k
  step-conns c conn d (state_changed state_idle) s t h k = k
  step-conns c conn d (state_changed state_hijacked) s t h k = k
  step-conns c conn d (state_changed state_closed) s t h k = k
  step-conns c conn d (written p) s t h k = rewritten c conn d p s.conns _ t refl k

  run-conns :
      (c : ℕ) (conn : SniffingConn) (events : List (ℕ × Event)) (s : Boundary)
      → conn.once_done ≡ true
      → AreLater c events
      → lookup eqb c s.conns ≡ some conn
      → lookup eqb c (run itoa events s).conns ≡ some conn
  unfolding run
  run-conns c conn [] s t l k = k
  run-conns c conn ((d, e) ∷ events) s t (h, l) k =
      run-conns c conn events (step itoa d e s) t l (step-conns c conn d e s t h k)

  -- The first bytes that are written on an accepted connection decide its label for good:
  -- whatever happens later on this and on other connections, later requests and responses on the
  -- connection included, when it ends unserved the count carries the status of the first response
  -- line. The connection is not accepted anew.
  pub run-label :
      (c : ℕ) (b : ℕ) (p : Bytes) (events : List (ℕ × Event)) (s : Boundary)
      → lookup eqb c s.conns ≡ some (record { once_done = false; status = 0 })
      → AreLater c events
      → let t = run itoa events (step itoa c (written (b ∷ p)) s) in
        lookup eqb c t.entries ≡ some false
        → (step itoa c (state_changed state_closed) t).counted
          ≡ status_or_unknown itoa (parse_status_line (b ∷ p)) ∷ t.counted
  unfolding step conn_state write_conn
  run-label c b p events s k l h =
      let t = run itoa events (step itoa c (written (b ∷ p)) s) in
      let conn : SniffingConn = record { once_done = true; status = parse_status_line (b ∷ p) } in
      let first : lookup eqb c (step itoa c (written (b ∷ p)) s).conns ≡ some conn =
        rw k (lookup-put eqb eqb_iff c c conn s.conns ∙ rw ((eqb_iff c c).1 refl) refl) in
      let kept : lookup eqb c t.conns ≡ some conn =
        run-conns c conn events (step itoa c (written (b ∷ p)) s) refl l first in
      rw h (rw kept refl)
