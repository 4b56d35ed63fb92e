-- ===== src/Handler/Round.antt =====
-- A round of a handler's loop, with the result of `validate` given.
use ultra_mds.Base.{
  ℕ, ◌≡◌, ap, ◌∙◌, Bool, Option, some, List, [], ◌>>=◌, if◌then◌else◌, get_elem?, set,
}
use ultra_mds.Base.Int.{ℤ}
use ultra_mds.Base.Bytes.{Bytes}
use ultra_mds.Double.{Double}
use ultra_mds.Tick.{TickData, TickDataMes}
use ultra_mds.Config.{Endpoint}
use ultra_mds.Queue.{SpscQueue}
use ultra_mds.Processor.{UnitProcessor, Outcome}
use ultra_mds.Processor.Validate.{validate}
use ultra_mds.Handler.{SendEvent, send_message, handle_tick, turn_on, process_turn}

>>=-some : {A B : Type 0} (m : Option A) (f : A → Option B) (a : A) → m ≡ some a → (m >>= f) ≡ f a
>>=-some m f a e = ap (λ o. o >>= f) e

module _ {W : Type 0} ⦃d : Double W⦄ (serialize : TickDataMes W → Option Bytes)
    (send_to : ℤ → Endpoint → Bytes → Bool) where
  -- What a round sends for a tick, from the outcome of its check.
  abbrev pub published : TickData W → UnitProcessor W → Bool → List SendEvent
  published t q passed = if passed then send_message serialize send_to t q else []

  handled_lem :
      (t : TickData W) (processors : List (UnitProcessor W)) (i : ℕ) (p : UnitProcessor W)
      (o : Outcome W)
      → t.detector ≡ some i
      → get_elem? processors i ≡ some p
      → validate t p ≡ some o
      → handle_tick serialize send_to t processors
        ≡ some (
          set processors i o.processor,
          if o.passed then send_message serialize send_to t o.processor else [],
        )
  unfolding handle_tick
  handled_lem t processors i p o e f g =
      >>=-some t.detector _ i e
      ∙ >>=-some (get_elem? processors i) _ p f
      ∙ >>=-some (validate t p) _ o g

  module _ {Q : Type 0} ⦃qs : SpscQueue (TickData W) Q⦄ where
    turned :
        (queue : Q) (t : TickData W) (processors : List (UnitProcessor W))
        (r : List (UnitProcessor W) × List SendEvent)
        → qs.front queue ≡ some t
        → handle_tick serialize send_to t processors ≡ some r
        → process_turn serialize send_to queue processors ≡ some (qs.pop queue, r.0, r.1)
    unfolding process_turn
    turned queue t processors r first run =
        ap (turn_on serialize send_to queue processors) first
        ∙ >>=-some (handle_tick serialize send_to t processors) _ r run

    pub process_turn-runs :
        (queue : Q) (t : TickData W) (processors : List (UnitProcessor W)) (i : ℕ)
        (p : UnitProcessor W) (o : Outcome W)
        → qs.front queue ≡ some t
        → t.detector ≡ some i
        → get_elem? processors i ≡ some p
        → validate t p ≡ some o
        → process_turn serialize send_to queue processors
          ≡ some (qs.pop queue, set processors i o.processor, published t o.processor o.passed)
    process_turn-runs queue t processors i p o first e f g =
        turned queue t processors (set processors i o.processor, published t o.processor o.passed)
          first (handled_lem t processors i p o e f g)
