-- ===== src/Tracing/Exporter/Drain.antt =====
-- internal/tracing/exporter.go: Shutdown drains the queue.
use wavefront.Base.{
  ℕ, zero, suc, ◌+◌, ◌<◌, ◌≡◌, ◌≢◌, ◌⊎◌, refl, sym, ap, ◌∙◌, true, List, [], ◌∷◌, ◌++◌, length,
  arith, inl, inr, append-nil,
}
use wavefront.Tracing.Exporter.{
  Exporter, Span, Worker, running, draining, finished, Works, Reachable, takes, sees_stop, drains,
  ends,
}
use wavefront.Tracing.Exporter.Queue.{export-order, Reachable-IsBounded}

-- The worker comes to an exporter with `P` whatever the selects choose: it can go on until then, and
-- every way on leads there.
pub data Inevitable (P : Exporter → Type 0) : Exporter → Type 0 where
  now : (e : Exporter) → P e → Inevitable P e
  later :
      (e f : Exporter) → Works e f → ((g : Exporter) → Works e g → Inevitable P g) → Inevitable P e

-- The worker has ended and everything that was accepted is exported.
abbrev pub IsDrained : Exporter → Type 0
IsDrained e = (e.worker ≡ finished) × (e.queue ≡ []) × (e.exported ≡ e.accepted)

-- What is left to do.
abbrev weight : Worker → ℕ
weight running = 2
weight draining = 1
weight finished = 0

abbrev left : Exporter → ℕ
left e = length e.queue + weight e.worker

abbrev InOrder : Exporter → Type 0
InOrder e = (e.stopping ≡ true) × (e.exported ++ e.queue ≡ e.accepted)

Works-left : {e f : Exporter} → Works e f → left f < left e
Works-left (takes e s q w h) = ground (arith, ap length h, w)
Works-left (drains e s q w h) = ground (arith, ap length h, w)
Works-left (sees_stop e w h) = ground (arith, w)
Works-left (ends e w h) = ground (arith, w)

-- What the way to the end keeps: the stop, the order, and that the worker ends on an empty queue.
abbrev IsEnding : Exporter → Type 0
IsEnding e = InOrder e × (e.worker ≡ finished → e.queue ≡ [])

running-ne-finished : {A : Type 0} (w : Worker) → w ≡ running → w ≡ finished → A
running-ne-finished w h k = cc

draining-ne-finished : {A : Type 0} (w : Worker) → w ≡ draining → w ≡ finished → A
draining-ne-finished w h k = cc

Works-IsEnding : {e f : Exporter} → Works e f → IsEnding e → IsEnding f
Works-IsEnding (takes e s q w h) ((t, o), j) =
    ((t, export-order e.exported e.queue s e.accepted q h o), λ k. running-ne-finished e.worker w k)
Works-IsEnding (drains e s q w h) ((t, o), j) = (
  (t, export-order e.exported e.queue s e.accepted q h o),
  λ k. draining-ne-finished e.worker w k,
)
Works-IsEnding (sees_stop e w h) ((t, o), j) = ((t, o), λ k. draining-ne-finished draining refl k)
Works-IsEnding (ends e w h) ((t, o), j) = ((t, o), λ k. h)

-- The step that the worker can take.
Works-next :
    (e : Exporter) (w : Worker) (q : List Span)
    → e.worker ≡ w
    → e.queue ≡ q
    → e.stopping ≡ true
    → (w ≡ finished) ⊎ ((f : Exporter) × Works e f)
Works-next e running q h k t = inr (_, sees_stop e h t)
Works-next e draining [] h k t = inr (_, ends e h k)
Works-next e draining (s ∷ q) h k t = inr (_, drains e s q h k)
Works-next e finished q h k t = inl refl

drains-within : (n : ℕ) (e : Exporter) → left e < n → IsEnding e → Inevitable IsDrained e
drains-within zero e l i = absurd (omega arith)
drains-within (suc n) e l ((t, o), j) = elim (Works-next e e.worker e.queue refl refl t) [
  | inl h ↦
      now e (h, j h, sym (append-nil e.exported) ∙ (ap (λ q. e.exported ++ q) (sym (j h)) ∙ o))
  | inr (f, w) ↦
      later e f w
        (λ g m. drains-within n g (omega (arith, Works-left m)) (Works-IsEnding m ((t, o), j)))
]

-- Behind Shutdown and without further spans, the worker comes to its end whatever the selects
-- choose, from every reachable state in which it has not ended, and then every accepted span is
-- exported in its order.
pub Reachable-IsDrained :
    (e : Exporter) → Reachable e → e.stopping ≡ true → e.worker ≢ finished → Inevitable IsDrained e
Reachable-IsDrained e r t w =
    let b = Reachable-IsBounded r in
    drains-within (suc (left e)) e (omega arith) ((t, b.in_order), λ h. absurd (w h))
