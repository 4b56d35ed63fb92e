-- ===== src/Handler/Turn.antt =====
-- What one round of a handler's loop sends.
use mathlib.Core.Path.{subst}
use ultra_mds.Base.{
  ℕ, ◌≡◌, ◌⊎◌, inl, inr, refl, ap, ◌∙◌, Bool, Option, some, List, [], ◌∷◌, get_elem?, set,
  Bool-cases, Option-cases,
}
use ultra_mds.Base.Int.{ℤ}
use ultra_mds.Base.Bytes.{Bytes}
use ultra_mds.Double.{Double}
use ultra_mds.Tick.{TickData, TickDataMes}
use ultra_mds.Config.{Endpoint}
use ultra_mds.Queue.{SpscQueue, IsSpscQueue}
use ultra_mds.Processor.{UnitProcessor, Outcome}
use ultra_mds.Processor.Validate.{validate}
use ultra_mds.Processor.Validate.Ends.{Ends, EndsBy}
use ultra_mds.Processor.Validate.Rules.{
  IsAccepted, IsAdvanced, Success, Failure, validate-Ends, AfterTimestamp-IsAdvanced,
}
use ultra_mds.Handler.Round.{published, process_turn-runs}
use ultra_mds.Handler.{SendEvent, send_message, process_turn}

module _ {W Q : Type 0} ⦃d : Double W⦄ ⦃qs : SpscQueue (TickData W) Q⦄
    (laws : IsSpscQueue (TickData W) Q) (serialize : TickDataMes W → Option Bytes)
    (send_to : ℤ → Endpoint → Bytes → Bool) where
  -- What is sent for a tick, with its processor before and after.
  abbrev pub IsSentIfAccepted :
      TickData W → UnitProcessor W → UnitProcessor W → List SendEvent → Type 0
  IsSentIfAccepted t p q events =
      (IsAccepted t p × (events ≡ send_message serialize send_to t q))
      ⊎ ((¬ IsAccepted t p) × (events ≡ []))

  -- A round on a queue whose oldest tick belongs to a processor that exists does not fault. It pops
  -- that tick only, changes that processor only, by its timestamp check, and sends the tick's message
  -- exactly if the tick keeps every rule that is switched on.
  pub process_turn-sends :
      (queue : Q) (t : TickData W) (rest : List (TickData W)) (processors : List (UnitProcessor W))
      (i : ℕ) (p : UnitProcessor W)
      → laws.contents queue ≡ t ∷ rest
      → t.detector ≡ some i
      → get_elem? processors i ≡ some p
      → (q : UnitProcessor W) × (events : List SendEvent) × (process_turn serialize send_to queue
            processors
          ≡ some (qs.pop queue, set processors i q, events))
        × (laws.contents (qs.pop queue) ≡ rest)
        × IsAdvanced t p q
        × IsSentIfAccepted t p q events
  process_turn-sends queue t rest processors i p held e f = elim (Option-cases (validate t p)) [
    | inl g ↦ absurd (subst (λ r. Ends r (Success t p) (Failure t p)) g (validate-Ends t p))
    | inr (o, g) ↦
        let ends = subst (λ r. Ends r (Success t p) (Failure t p)) g (validate-Ends t p) in
        let run =
          process_turn-runs serialize send_to queue t processors i p o
            (laws.front_lem queue t rest held) e f g in
        let after : Outcome W → Bool → Option (Q × List (UnitProcessor W) × List SendEvent) = λ x b.
          some (
            qs.pop queue,
            set processors i x.processor,
            published serialize send_to t x.processor b,
          ) in
        let popped = laws.contents-pop queue t rest held in
        elim (Bool-cases o.passed) [
          | inl passed ↦
              let done =
                subst (λ b. EndsBy b o.messages o.processor (Success t p) (Failure t p)) passed
                  ends in
              (
                o.processor,
                send_message serialize send_to t o.processor,
                run ∙ ap (after o) passed,
                popped,
                AfterTimestamp-IsAdvanced t p o.processor done.1.1,
                inl (done.1.0, refl),
              )
          | inr failed ↦
              let done =
                subst (λ b. EndsBy b o.messages o.processor (Success t p) (Failure t p)) failed
                  ends in
              (o.processor, [], run ∙ ap (after o) failed, popped, done.1.1, inr (done.1.0, refl))
        ]
  ]
