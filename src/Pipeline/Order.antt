-- ===== src/Pipeline/Order.antt =====
-- The order of each processor's ticks, from the dispatch through its queue to its handler.
use mathlib.Core.Path.{subst}
use mathlib.Core.Option.{some-injective}
use ultra_mds.Base.{
  ℕ, ◌%◌, ◌<◌, ◌≡◌, ◌≢◌, inl, inr, refl, sym, ap, ◌∙◌, some, List, [], ◌∷◌, ◌++◌, length,
  length-set, get_elem?, set, get_elem?-set_same, get_elem?-set_other, get_elem?-lt, map, All,
  All-append, eq_cases,
}
use ultra_mds.Tick.{TickData}
use ultra_mds.Queue.{SpscQueue, IsSpscQueue}
use ultra_mds.Handler.{SendEvent}
use ultra_mds.Pipeline.Select.{
  ticks_of, ticks_of-append, ticks_of_other, append_assoc, append_nil, map-append,
}

-- The ticks that the handlers took.
abbrev pub taken : {W : Type 0} → List (TickData W × List SendEvent) → List (TickData W)
taken = map (λ turn. turn.0)

-- The tick belongs to one of m processors, whose index is k modulo n.
abbrev pub Owned : {W : Type 0} → ℕ → ℕ → ℕ → TickData W → Type 0
Owned m n k t = (i : ℕ) × (t.detector ≡ some i) × (i < m) × (i % n ≡ k)

module _ {W Q : Type 0} ⦃qs : SpscQueue (TickData W) Q⦄ (laws : IsSpscQueue (TickData W) Q)
    (m n : ℕ) where
  -- There are n queues, the k-th holds only ticks that belong there, and for each processor the ticks
  -- that entered its queue are those that its handler took and then those that wait, in order.
  pub record InOrder (queues : List Q) (entered : List (TickData W))
      (turns : List (TickData W × List SendEvent)) : Type 0 where
    pub size : length queues ≡ n
    pub owned : (k : ℕ) (q : Q) → get_elem? queues k ≡ some q → All (Owned m n k) (laws.contents q)
    pub order :
        (i : ℕ) (q : Q)
        → get_elem? queues (i % n) ≡ some q
        → ticks_of i entered ≡ ticks_of i (taken turns) ++ ticks_of i (laws.contents q)

  module _ (queues : List Q) (k : ℕ) (q q' : Q) (held : get_elem? queues k ≡ some q) where
    -- What a written queue is.
    written :
        (j : ℕ) (x : Q)
        → get_elem? (set queues k q') j ≡ some x
        → (P : ℕ → Q → Type 0) → P k q'
        → (j ≢ k → get_elem? queues j ≡ some x → P j x)
        → P j x
    written j x h P new old = elim (eq_cases j k) [
      | inl e ↦
          let same : q' ≡ x = some-injective _ _ (
            sym (get_elem?-set_same queues k q' (get_elem?-lt queues k held))
            ∙ ap (get_elem? (set queues k q')) (sym e)
            ∙ h) in
          subst (λ y. P j y) same (subst (λ l. P l q') (sym e) new)
      | inr ne ↦ old ne (sym (get_elem?-set_other queues k q' j ne) ∙ h)
    ]

    module _ (entered : List (TickData W)) (turns : List (TickData W × List SendEvent))
        (inv : InOrder queues entered turns) (t : TickData W) (own : Owned m n k t) where
      others_differ : (i : ℕ) → i % n ≢ k → ticks_of i (t ∷ []) ≡ []
      others_differ i ne =
          let (j, e, _, at_k) = own in
          ticks_of_other i j t e (λ same. ne (ap (λ l. l % n) same ∙ at_k))

      -- A tick that a queue takes.
      pub InOrder-entered :
          laws.contents q' ≡ laws.contents q ++ t ∷ []
          → InOrder (set queues k q') (entered ++ t ∷ []) turns
      InOrder-entered new = record {
        size = length-set queues k q' ∙ inv.size;
        owned = λ j x h.
            written j x h (λ l y. All (Owned m n l) (laws.contents y))
              (rw new (
                All-append (Owned m n k) (laws.contents q) (t ∷ []) (inv.owned k q held) (own, tt)))
              (λ _ g. inv.owned j x g);
        order = λ i x h.
            written (i % n) x h
              (λ l y.
                l ≡ i % n
                → ticks_of i (entered ++ t ∷ [])
                  ≡ ticks_of i (taken turns) ++ ticks_of i (laws.contents y))
              (λ e.
                ticks_of-append i entered (t ∷ [])
                ∙ ap (λ ts. ts ++ ticks_of i (t ∷ []))
                    (inv.order i q (subst (λ l. get_elem? queues l ≡ some q) e held))
                ∙ append_assoc (ticks_of i (taken turns)) (ticks_of i (laws.contents q))
                    (ticks_of i (t ∷ []))
                ∙ ap (λ ts. ticks_of i (taken turns) ++ ts)
                    (sym (ticks_of-append i (laws.contents q) (t ∷ []))
                      ∙ ap (ticks_of i) (sym new)))
              (λ ne g e.
                ticks_of-append i entered (t ∷ [])
                ∙ ap (λ ts. ticks_of i entered ++ ts) (others_differ i ne)
                ∙ append_nil (ticks_of i entered)
                ∙ inv.order i x g)
              refl;
      }

      taken_snoc :
          (i : ℕ) (events : List SendEvent)
          → ticks_of i (taken (turns ++ (t, events) ∷ []))
            ≡ ticks_of i (taken turns) ++ ticks_of i (t ∷ [])
      taken_snoc i events =
          ap (ticks_of i) (map-append (λ turn. turn.0) turns ((t, events) ∷ []))
          ∙ ticks_of-append i (taken turns) (t ∷ [])

      -- A tick that a handler takes.
      pub InOrder-taken :
          (events : List SendEvent) (rest : List (TickData W))
          → laws.contents q ≡ t ∷ rest
          → laws.contents q' ≡ rest
          → InOrder (set queues k q') entered (turns ++ (t, events) ∷ [])
      InOrder-taken events rest first others = record {
        size = length-set queues k q' ∙ inv.size;
        owned = λ j x h.
            written j x h (λ l y. All (Owned m n l) (laws.contents y))
              (rw others (subst (All (Owned m n k)) first (inv.owned k q held)).1)
              (λ _ g. inv.owned j x g);
        order = λ i x h.
            written (i % n) x h
              (λ l y.
                l ≡ i % n
                → ticks_of i entered
                  ≡ ticks_of i (taken (turns ++ (t, events) ∷ [])) ++ ticks_of i (laws.contents y))
              (λ e.
                inv.order i q (subst (λ l. get_elem? queues l ≡ some q) e held)
                ∙ ap (λ ts. ticks_of i (taken turns) ++ ts)
                    (ap (ticks_of i) first ∙ ticks_of-append i (t ∷ []) rest)
                ∙ sym (
                    append_assoc (ticks_of i (taken turns)) (ticks_of i (t ∷ [])) (ticks_of i rest))
                ∙ ap (λ ts. ts ++ ticks_of i rest) (sym (taken_snoc i events))
                ∙ ap (λ ts. ticks_of i (taken (turns ++ (t, events) ∷ [])) ++ ticks_of i ts)
                    (sym others))
              (λ ne g e.
                inv.order i x g
                ∙ ap (λ ts. ts ++ ticks_of i (laws.contents x))
                    (sym (
                      taken_snoc i events
                      ∙ ap (λ ts. ticks_of i (taken turns) ++ ts) (others_differ i ne)
                      ∙ append_nil (ticks_of i (taken turns)))))
              refl;
      }

      -- A tick that a full queue refuses.
      pub InOrder-refused :
          laws.contents q' ≡ laws.contents q → InOrder (set queues k q') entered turns
      InOrder-refused kept = record {
        size = length-set queues k q' ∙ inv.size;
        owned = λ j x h.
            written j x h (λ l y. All (Owned m n l) (laws.contents y))
              (rw kept (inv.owned k q held)) (λ _ g. inv.owned j x g);
        order = λ i x h.
            written (i % n) x h
              (λ l y.
                l ≡ i % n
                → ticks_of i entered ≡ ticks_of i (taken turns) ++ ticks_of i (laws.contents y))
              (λ e.
                inv.order i q (subst (λ l. get_elem? queues l ≡ some q) e held)
                ∙ ap (λ ts. ticks_of i (taken turns) ++ ticks_of i ts) (sym kept))
              (λ ne g e. inv.order i x g) refl;
      }
