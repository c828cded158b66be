-- ===== src/Tracing/Exporter/Queue.antt =====
-- internal/tracing/exporter.go: the bound of the queue, and where each span went.
use wavefront.Base.{
  ◌≤◌, ◌≡◌, ◌⊎◌, refl, sym, ap, ◌∙◌, List, [], ◌∷◌, ◌++◌, ltb, length, length-append, arith, inl,
  inr, append_assoc, Bool-cases,
}
use wavefront.Tracing.Exporter.{
  Exporter, Span, Works, Reachable, built, offered, stopped, worked, takes, sees_stop, drains, ends,
  queue_depth, enqueue, shutdown,
}

-- The queue is bounded, the worker exports what was accepted in its order, and nothing is dropped
-- while fewer spans than the queue holds were accepted.
pub record IsBounded (e : Exporter) : Type 0 where
  pub depth : length e.queue ≤ queue_depth
  pub in_order : e.exported ++ e.queue ≡ e.accepted
  pub drops : (e.dropped ≡ []) ⊎ (queue_depth ≤ length e.accepted)

pub export-order :
    (xs q : List Span) (s : Span) (l rest : List Span)
    → q ≡ s ∷ rest
    → xs ++ q ≡ l
    → (xs ++ s ∷ []) ++ rest ≡ l
export-order xs q s l rest h k = append_assoc xs (s ∷ []) rest ∙ (ap (λ y. xs ++ y) (sym h) ∙ k)

enqueue-IsBounded : (s : Span) (e : Exporter) → IsBounded e → IsBounded (enqueue s e)
unfolding enqueue
enqueue-IsBounded s e b = elim (Bool-cases (ltb (length e.queue) queue_depth)) [
  | inl t ↦ rw t (record {
    depth = ground (arith, t, length-append e.queue (s ∷ []));
    in_order = sym (append_assoc e.exported e.queue (s ∷ [])) ∙ ap (λ l. l ++ s ∷ []) b.in_order;
    drops = longer e.accepted e.dropped b.drops;
  })
  | inr t ↦ rw t (record {
    depth = b.depth;
    in_order = b.in_order;
    drops = inr (ground (arith, t, ap length b.in_order, length-append e.exported e.queue));
  })
]
  where
    longer :
        (l d : List Span)
        → (d ≡ []) ⊎ (queue_depth ≤ length l)
        → (d ≡ []) ⊎ (queue_depth ≤ length (l ++ s ∷ []))
    longer l d (inl h) = inl h
    longer l d (inr h) = inr (omega (arith, h, length-append l (s ∷ [])))

take-IsBounded :
    (e : Exporter) (s : Span) (q : List Span)
    → e.queue ≡ s ∷ q
    → IsBounded e
    → IsBounded (record e { queue = q; exported = e.exported ++ s ∷ [] })
take-IsBounded e s q h b = record {
  depth = ground (arith, b.depth, ap length h);
  in_order = export-order e.exported e.queue s e.accepted q h b.in_order;
  drops = b.drops;
}

Works-IsBounded : {e f : Exporter} → Works e f → IsBounded e → IsBounded f
Works-IsBounded (takes e s q w h) b = take-IsBounded e s q h b
Works-IsBounded (drains e s q w h) b = take-IsBounded e s q h b
Works-IsBounded (sees_stop e w h) b = record {
  depth = b.depth;
  in_order = b.in_order;
  drops = b.drops;
}
Works-IsBounded (ends e w h) b = record { depth = b.depth; in_order = b.in_order; drops = b.drops }

-- In every order of offers, stops and worker steps: the queue never holds more than queueDepth
-- spans, the exported spans and the queue are the accepted spans in their order, and a span is
-- dropped only once queueDepth spans were accepted.
pub Reachable-IsBounded : {e : Exporter} → Reachable e → IsBounded e
unfolding shutdown
Reachable-IsBounded built = record { depth = omega arith; in_order = refl; drops = inl refl }
Reachable-IsBounded (offered s e r) = enqueue-IsBounded s e (Reachable-IsBounded r)
Reachable-IsBounded (stopped e r) =
    let b = Reachable-IsBounded r in
    record { depth = b.depth; in_order = b.in_order; drops = b.drops }
Reachable-IsBounded (worked e f r w) = Works-IsBounded w (Reachable-IsBounded r)
