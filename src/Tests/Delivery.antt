-- ===== src/Tests/Delivery.antt =====
-- A run of the system: a dispatch, and a round of its handler.
use ultra_mds.Base.{◌≡◌, refl, arith, Bool, true, Option, some, List, [], ◌∷◌}
use ultra_mds.Base.Int.{ℤ, pos}
use ultra_mds.Base.Bytes.{Bytes}
use ultra_mds.Double.Fixed.{Fixed, fixed_double}
use ultra_mds.Tick.{TickData, TickDataMes, make_tick}
use ultra_mds.Config.{Endpoint}
use ultra_mds.Queue.Bounded.{Bounded, bounded_queue, Bounded-IsSpscQueue}
use ultra_mds.Processor.{UnitProcessor, Outcome}
use ultra_mds.Processor.Validate.History.{IsNearlySorted}
use ultra_mds.Processor.Validate.Replay.{validate-total}
use ultra_mds.Handler.{SendEvent}
use ultra_mds.Handler.Round.{published, process_turn-runs}
use ultra_mds.Pipeline.{World, Reach, here, next, fed, handled, entering}
use ultra_mds.Pipeline.Select.{sent_of}
use ultra_mds.Pipeline.Sent.{messages_of}
use ultra_mds.Pipeline.Flow.{IsFresh}
use ultra_mds.Pipeline.Delivery.{delivery-IsNearlySorted}
use ultra_mds.Tests.Data.{sample_config, sample_processor}
use ultra_mds.Tests.Handlers.{dispatcher, ready, queue, record_of_feed, fed_queue, fed_first}
use ultra_mds.System.Start.{fresh-empty}

abbrev serialize : TickDataMes Fixed → Option Bytes
serialize mes = some mes.instrument_id

abbrev send_to : ℤ → Endpoint → Bytes → Bool
send_to now endpoint text = true

abbrev processor : UnitProcessor Fixed
processor = sample_processor 20_240_102_093_001_400

abbrev start : World Fixed (Bounded (TickData Fixed))
start = record {
  queues = queue ∷ queue ∷ [];
  processors = processor ∷ processor ∷ processor ∷ [];
  entered = [];
  turns = [];
}

abbrev tick : TickData Fixed
tick = make_tick record_of_feed (some 0) (pos 7)

abbrev outcome : Outcome Fixed
outcome = (validate-total tick processor).0

abbrev events : List SendEvent
events = published serialize send_to tick outcome.processor outcome.passed

abbrev fed_world : World Fixed (Bounded (TickData Fixed))
fed_world = record start {
  queues = fed_queue ∷ queue ∷ [];
  entered = entering record_of_feed (pos 7) dispatcher [];
}

abbrev last : World Fixed (Bounded (TickData Fixed))
last = record fed_world {
  queues = queue ∷ queue ∷ [];
  processors = outcome.processor ∷ processor ∷ processor ∷ [];
  turns = (tick, events) ∷ [];
}

run : Reach Fixed serialize send_to dispatcher start last
run = next (next here (fed record_of_feed (pos 7) (fed_queue ∷ queue ∷ []) [] fed_first)) (
    handled 0 fed_queue queue tick (outcome.processor ∷ processor ∷ processor ∷ []) events refl refl
      (process_turn-runs serialize send_to fed_queue tick (processor ∷ processor ∷ processor ∷ []) 0
        processor outcome refl (unfold make_tick in refl) refl (validate-total tick processor).1))

is_fresh : IsFresh Bounded-IsSpscQueue 2 start
is_fresh = record {
  size = refl;
  empty = λ k q h. fresh-empty Bounded-IsSpscQueue 8 0 2 k q h;
  none_entered = refl;
  none_taken = refl;
}

delivery-IsNearlySorted_example :
    (kept : List (TickData Fixed)) × (sent_of 0 last.turns
      ≡ messages_of serialize send_to processor kept)
    × IsNearlySorted sample_config kept
delivery-IsNearlySorted_example =
    delivery-IsNearlySorted Bounded-IsSpscQueue serialize send_to ready (omega arith) start last
      is_fresh refl run 0 processor refl refl
