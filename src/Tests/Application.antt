-- ===== src/Tests/Application.antt =====
-- A tick on its way through the started program.
use ultra_mds.Base.{
  ◌≤◌, ◌≢◌, ◌↔◌, All, length, arith, ◌≡◌, refl, Bool, true, some, List, [], ◌∷◌, ◌++◌,
}
use ultra_mds.Base.Int.{ℤ, pos}
use ultra_mds.Base.Bytes.{Bytes, same, c_string}
use ultra_mds.Double.Fixed.{Fixed, fixed_double}
use ultra_mds.Json.Tree.{tree_json, tree_double}
use ultra_mds.Tick.{TickData, make_tick}
use ultra_mds.Config.{Endpoint}
use ultra_mds.Queue.Bounded.{Bounded, bounded_queue, Bounded-IsSpscQueue}
use ultra_mds.Processor.{Outcome}
use ultra_mds.Processor.Validate.History.{validate_all}
use ultra_mds.Processor.Validate.Replay.{Replayed, validate-total}
use ultra_mds.Dispatcher.{dispatch, find}
use ultra_mds.Handler.{SendEvent}
use ultra_mds.Handler.Round.{published, process_turn-runs}
use ultra_mds.Market.{no_manager}
use ultra_mds.Pipeline.{World, Reach, here, next, fed, handled, entering}
use ultra_mds.Pipeline.Select.{ticks_of, sent_of}
use ultra_mds.Pipeline.Order.{taken}
use ultra_mds.Pipeline.Sent.{messages_of}
use ultra_mds.Dispatcher.{DispatchMessage}
use ultra_mds.System.{queue_size_of}
use ultra_mds.Pipeline.Feed.{feed_of, accepted_of}
use ultra_mds.Pipeline.Capacity.{IsFull}
use ultra_mds.Application.Forward.{app_start_forwards, app_start_completes, app_start_drops}
use ultra_mds.Base.{◌↔◌}
use ultra_mds.Json.Tree.{tree_json, tree_double, Tree-IsJson}
use ultra_mds.Application.{Application, app_start}
use ultra_mds.Application.Errors.{CanStart, app_start_iff}
use ultra_mds.Tick.{fill_proto_data}
use ultra_mds.Tick.Encoded.{encode, decode, decode-encode}
use ultra_mds.Pipeline.Feed.{Arrival}
use ultra_mds.Pipeline.Genuine.{HasAsciiTexts, filled, IsGenuine}
use ultra_mds.Application.Genuine.{app_start-IsGenuine}
use ultra_mds.Application.Delivery.{begun, app_start_delivers}
use ultra_mds.Tests.Rules.{parse_address}
use ultra_mds.Tests.Handlers.{
  host, queue, record_of_feed, fed_queue, loaded, sample_container, sample_system,
}
use ultra_mds.Tests.Market.{
  throws, log_path, read_file, parse, loginer, container, application, app_starts,
}

abbrev send_to : ℤ → Endpoint → Bytes → Bool
send_to now endpoint text = true

abbrev tick : TickData Fixed
tick = make_tick record_of_feed (some 0) (pos 7)

abbrev outcome : Outcome Fixed
outcome = (validate-total tick loaded).0

abbrev events : List SendEvent
events = published encode send_to tick outcome.processor outcome.passed

abbrev last : World Fixed (Bounded (TickData Fixed))
last = record {
  queues = queue ∷ [];
  processors = outcome.processor ∷ [];
  entered = entering record_of_feed (pos 7) sample_system.dispatcher [];
  turns = (tick, events) ∷ [];
}

dispatched :
    dispatch record_of_feed (pos 7) sample_system.dispatcher (queue ∷ [])
    ≡ some (fed_queue ∷ [], [])
unfolding dispatch find same c_string
dispatched = refl

-- Behind the dispatch, before the handler's round.
abbrev waiting : World Fixed (Bounded (TickData Fixed))
waiting = record {
  queues = fed_queue ∷ [];
  processors = loaded ∷ [];
  entered = entering record_of_feed (pos 7) sample_system.dispatcher [];
  turns = [];
}

first_step : Reach Fixed encode send_to sample_system.dispatcher (begun sample_system) waiting
first_step = next here (fed record_of_feed (pos 7) (fed_queue ∷ []) [] dispatched)

run : Reach Fixed encode send_to sample_system.dispatcher (begun sample_system) last
run = next first_step (
    handled 0 fed_queue queue tick (outcome.processor ∷ []) events refl refl (
      process_turn-runs encode send_to fed_queue tick (loaded ∷ []) 0 loaded outcome refl
        (unfold make_tick in refl) refl (validate-total tick loaded).1))

app_start_delivers_example :
    (ticks_of 0 last.entered
      ≡ ticks_of 0 (taken last.turns)
        ++ ticks_of 0 ((Bounded-IsSpscQueue {A = TickData Fixed}).contents queue))
    × ((r : Replayed Fixed) × (validate_all (ticks_of 0 (taken last.turns)) loaded ≡ some r)
        × (sent_of 0 last.turns ≡ messages_of encode send_to loaded r.0))
app_start_delivers_example =
    app_start_delivers Bounded-IsSpscQueue encode send_to throws log_path read_file parse
      parse_address host loginer container no_manager application last 0 loaded queue app_starts run
      refl refl

app_start_forwards_example :
    (r : Replayed Fixed) × (validate_all
        (accepted_of sample_container.contracts 0 (feed_of run))
        loaded
      ≡ some r)
    × (sent_of 0 last.turns ≡ messages_of encode send_to loaded r.0)
app_start_forwards_example =
    app_start_forwards Bounded-IsSpscQueue encode send_to throws log_path read_file parse
      parse_address host loginer container no_manager application app_starts last run 0 loaded queue
      refl refl ((Bounded-IsSpscQueue {A = TickData Fixed}).contents-make 8)

app_start_completes_example :
    (v : World Fixed (Bounded (TickData Fixed))) × Reach Fixed encode send_to
      sample_system.dispatcher waiting v
    × (v.entered ≡ waiting.entered)
    × ((r : Replayed Fixed) × (validate_all
            (accepted_of sample_container.contracts 0 (feed_of first_step))
            loaded
          ≡ some r)
        × (sent_of 0 v.turns ≡ messages_of encode send_to loaded r.0))
app_start_completes_example =
    app_start_completes Bounded-IsSpscQueue encode send_to throws log_path read_file parse
      parse_address host loginer container no_manager application app_starts waiting first_step 0
      loaded refl

app_start_drops_example :
    let size = queue_size_of 1 1 in
    All (λ q. length ((Bounded-IsSpscQueue {A = TickData Fixed}).contents q) ≤ size) last.queues
    × ((queues' : List (Bounded (TickData Fixed))) × (messages : List DispatchMessage) × (dispatch
            record_of_feed
            (pos 8)
            sample_system.dispatcher
            last.queues
          ≡ some (queues', messages))
        × (messages ≢ []
            ↔ IsFull Bounded-IsSpscQueue 1 size sample_container.contracts record_of_feed
                last.queues))
unfolding c_string
app_start_drops_example =
    app_start_drops Bounded-IsSpscQueue encode send_to throws log_path read_file parse parse_address
      host loginer container no_manager application app_starts last run record_of_feed (pos 8)
      (omega arith)

app_start_iff_example :
    ((a : Application Fixed (Bounded (TickData Fixed))) × (app_start throws log_path read_file parse
          parse_address host loginer container no_manager
        ≡ some a))
    ↔ CanStart Fixed throws log_path read_file parse parse_address host
app_start_iff_example =
    app_start_iff Tree-IsJson Bounded-IsSpscQueue throws log_path read_file parse parse_address host
      loginer container no_manager

ascii :
    All (λ (x : Arrival Fixed). HasAsciiTexts (filled (make_tick x.0 (some 0) x.1))) (feed_of run)
unfolding feed_of fill_proto_data make_tick c_string run first_step
ascii = (
  record {
    instrument_id_lt = ground arith;
    exchange_id_lt = ground arith;
    update_time_lt = ground arith;
    action_day_lt = ground arith;
    trading_day_lt = ground arith;
  },
  tt,
)

app_start-IsGenuine_example :
    All (IsGenuine decode sample_container.contracts 0 loaded (feed_of run)) (sent_of 0 last.turns)
app_start-IsGenuine_example =
    app_start-IsGenuine Bounded-IsSpscQueue encode send_to throws log_path read_file parse
      parse_address host loginer container no_manager application app_starts last run decode 0
      loaded refl (λ m text _. decode-encode m text) ascii
