-- ===== src/Server/Boundary/Lifecycle.antt =====
-- internal/server/stdlib_boundary.go: what the callbacks count over the lives of all connections.
use wavefront.Base.{
  ℕ, ◌+◌, String, ◌≡◌, refl, ap, ◌∙◌, Bool, true, false, List, [], Option, none, some,
  if◌then◌else◌, eqb, eqb_iff, length, arith, subst, inl, inr, Bool-cases,
}
use wavefront.Base.Dict.{lookup, lookup-put, lookup-delete}
use wavefront.Json.{Bytes}
use wavefront.Server.Boundary.{
  Boundary, Event, accepted, handler_entered, written, state_changed, state_new, state_active,
  state_idle, state_hijacked, state_closed, step, conn_state, mark_handler_seen,
}

-- Where net/http is with a connection; the Boolean says whether the handler ran on the request at
-- hand or, between requests, on the last one.
pub data Phase : Type 0 where
  absent fresh gone : Phase
  serving waiting : Bool → Phase

-- The connections' phases, what the server keeps, and how many connections ended without a run of
-- the handler since they last became active.
pub record System : Type 0 where
  pub phases : ℕ → Phase
  pub boundary : Boundary
  pub unserved : ℕ

abbrev pub at_start : System
at_start = record {
  phases = λ c. absent;
  boundary = record { entries = []; conns = []; counted = [] };
  unserved = 0;
}

abbrev pub set_phase : ℕ → Phase → (ℕ → Phase) → ℕ → Phase
set_phase c p phases j = if eqb c j then p else phases j

-- The order in which net/http calls back on one connection.
pub data Moves : Phase → Event → Phase → Type 0 where
  accepts : Moves absent accepted fresh
  dials : Moves fresh (state_changed state_new) fresh
  activates : Moves fresh (state_changed state_active) (serving false)
  activates_again :
      (seen : Bool) → Moves (waiting seen) (state_changed state_active) (serving false)
  enters : (seen : Bool) → Moves (serving seen) handler_entered (serving true)
  writes : (seen : Bool) (p : Bytes) → Moves (serving seen) (written p) (serving seen)
  rests : (seen : Bool) → Moves (serving seen) (state_changed state_idle) (waiting seen)
  hijacks : (seen : Bool) → Moves (serving seen) (state_changed state_hijacked) gone
  drops : Moves fresh (state_changed state_closed) gone
  closes : (seen : Bool) → Moves (serving seen) (state_changed state_closed) gone
  closes_idle : (seen : Bool) → Moves (waiting seen) (state_changed state_closed) gone

-- Whether a connection ends here on which the handler has not run.
abbrev pub ends_unserved : Phase → Event → ℕ
ends_unserved (serving false) (state_changed state_closed) = 1
ends_unserved (waiting false) (state_changed state_closed) = 1
ends_unserved p e = 0

-- The connections' events come interleaved in any way.
pub data Reachable (itoa : ℕ → String) : System → Type 0 where
  started : Reachable itoa at_start
  moved :
      (s : System) (c : ℕ) (e : Event) (p : Phase)
      → Reachable itoa s
      → Moves (s.phases c) e p
      → Reachable itoa (record {
        phases = set_phase c p s.phases;
        boundary = step itoa c e s.boundary;
        unserved = ends_unserved (s.phases c) e + s.unserved;
      })

abbrev pub entry_of : Phase → Option Bool
entry_of absent = none
entry_of fresh = none
entry_of gone = none
entry_of (serving seen) = some seen
entry_of (waiting seen) = some seen

module _ (itoa : ℕ → String) where
  same-entry :
      (es : List (ℕ × Bool)) (c : ℕ) (x : Option Bool)
      → lookup eqb c es ≡ x
      → (j : ℕ) → lookup eqb j es ≡ (if eqb c j then x else lookup eqb j es)
  same-entry es c x h j = elim (Bool-cases (eqb c j)) [
    | inl e ↦ rw e (subst (λ i. lookup eqb i es ≡ x) ((eqb_iff c j).0 e) h)
    | inr e ↦ rw e refl
  ]

  -- One callback: the entry of its connection, and the entries of the others.
  step-entry :
      (s : Boundary) (c : ℕ) (e : Event) (q p : Phase)
      → lookup eqb c s.entries ≡ entry_of q
      → Moves q e p
      → (j : ℕ)
      → lookup eqb j (step itoa c e s).entries
        ≡ (if eqb c j then entry_of p else lookup eqb j s.entries)
  unfolding step conn_state mark_handler_seen
  step-entry s c e q p h accepts j = same-entry s.entries c _ h j
  step-entry s c e q p h dials j = same-entry s.entries c _ h j
  step-entry s c e q p h activates j = lookup-put eqb eqb_iff c j false s.entries
  step-entry s c e q p h (activates_again seen) j = lookup-put eqb eqb_iff c j false s.entries
  step-entry s c e q p h (enters seen) j = rw h (lookup-put eqb eqb_iff c j true s.entries)
  step-entry s c e q p h (writes seen b) j = same-entry s.entries c _ h j
  step-entry s c e q p h (rests seen) j = same-entry s.entries c _ h j
  step-entry s c e q p h (hijacks seen) j = lookup-delete eqb eqb_iff c j s.entries
  step-entry s c e q p h drops j = lookup-delete eqb eqb_iff c j s.entries
  step-entry s c e q p h (closes seen) j = lookup-delete eqb eqb_iff c j s.entries
  step-entry s c e q p h (closes_idle seen) j = lookup-delete eqb eqb_iff c j s.entries

  step-counted :
      (s : Boundary) (c : ℕ) (e : Event) (q p : Phase)
      → lookup eqb c s.entries ≡ entry_of q
      → Moves q e p
      → length (step itoa c e s).counted ≡ ends_unserved q e + length s.counted
  unfolding step conn_state mark_handler_seen
  step-counted s c e q p h accepts = omega arith
  step-counted s c e q p h dials = omega arith
  step-counted s c e q p h activates = omega arith
  step-counted s c e q p h (activates_again true) = omega arith
  step-counted s c e q p h (activates_again false) = omega arith
  step-counted s c e q p h (enters true) = omega arith
  step-counted s c e q p h (enters false) = omega arith
  step-counted s c e q p h (writes true b) = omega arith
  step-counted s c e q p h (writes false b) = omega arith
  step-counted s c e q p h (rests true) = omega arith
  step-counted s c e q p h (rests false) = omega arith
  step-counted s c e q p h (hijacks true) = omega arith
  step-counted s c e q p h (hijacks false) = omega arith
  step-counted s c e q p h drops = rw h (omega arith)
  step-counted s c e q p h (closes true) = rw h (omega arith)
  step-counted s c e q p h (closes false) = rw h (omega arith)
  step-counted s c e q p h (closes_idle true) = rw h (omega arith)
  step-counted s c e q p h (closes_idle false) = rw h (omega arith)

  -- In every reachable state, whatever the interleaving, the map has an entry for a connection
  -- exactly while the connection is active or idle, with what was seen of the handler, and the
  -- counter was incremented once for each connection that was closed without a run of the handler
  -- since it last became active.
  pub Reachable-counted :
      (s : System)
      → Reachable itoa s
      → ((c : ℕ) → lookup eqb c s.boundary.entries ≡ entry_of (s.phases c))
        × (length s.boundary.counted ≡ s.unserved)
  unfolding lookup
  Reachable-counted s started = (λ c. refl, refl)
  Reachable-counted t (moved s c e p r m) =
      let (entries, counted) = Reachable-counted s r in
      (
        λ j. elim (Bool-cases (eqb c j)) [
          | inl same ↦
              rw same (step-entry s.boundary c e (s.phases c) p (entries c) m j ∙ rw same refl)
          | inr other ↦
              rw other
                (step-entry s.boundary c e (s.phases c) p (entries c) m j ∙ rw other (entries j))
        ],
        step-counted s.boundary c e (s.phases c) p (entries c) m
            ∙ ap (λ n. ends_unserved (s.phases c) e + n) counted,
      )
