-- ===== src/Tests/Turn.antt =====
-- A round of a handler's loop on a concrete queue.
use ultra_mds.Base.{◌≡◌, refl, ap, ◌∙◌, Bool, true, Option, some, List, [], ◌∷◌, ◌++◌}
use ultra_mds.Base.Int.{ℤ}
use ultra_mds.Base.Bytes.{Bytes, bytes}
use ultra_mds.Double.Fixed.{Fixed, fixed_double}
use ultra_mds.Tick.{TickData, TickDataMes, make_tick}
use ultra_mds.Config.{Endpoint}
use ultra_mds.Queue.Bounded.{Bounded, bounded_queue, Bounded-IsSpscQueue}
use ultra_mds.Processor.{UnitProcessor}
use ultra_mds.Processor.Validate.Rules.{IsAdvanced}
use ultra_mds.Handler.{SendEvent, process_turn}
use ultra_mds.Handler.Turn.{IsSentIfAccepted, process_turn-sends}
use ultra_mds.Tests.Data.{sample_tick, sample_processor}

abbrev serialize : TickDataMes Fixed → Option Bytes
serialize mes = some mes.instrument_id

abbrev send_to : ℤ → Endpoint → Bytes → Bool
send_to now endpoint text = true

abbrev tick : TickData Fixed
tick = sample_tick (bytes "09:30:01") 500

abbrev queue : Bounded (TickData Fixed)
queue = record { capacity = 8; elements = tick ∷ [] }

abbrev processor : UnitProcessor Fixed
processor = sample_processor 20_240_102_093_001_400

holds_tick : Bounded-IsSpscQueue.contents queue ≡ tick ∷ []
holds_tick =
    Bounded-IsSpscQueue.contents-try_emplace tick (record { capacity = 8; elements = [] }) refl
    ∙ ap (λ ts. ts ++ tick ∷ []) (Bounded-IsSpscQueue.contents-make 8)

process_turn-sends_example :
    (q : UnitProcessor Fixed) × (events : List SendEvent) × (process_turn serialize send_to queue
        (processor ∷ [])
      ≡ some (record { capacity = 8; elements = [] }, q ∷ [], events))
    × ((Bounded-IsSpscQueue {A = TickData Fixed}).contents (record { capacity = 8; elements = [] })
        ≡ [])
    × IsAdvanced tick processor q
    × IsSentIfAccepted Bounded-IsSpscQueue serialize send_to tick processor q events
unfolding make_tick
process_turn-sends_example =
    process_turn-sends Bounded-IsSpscQueue serialize send_to queue tick [] (processor ∷ []) 0
      processor holds_tick refl refl
