-- ===== src/Tests/Handlers.antt =====
-- The queues of a started system.
use ultra_mds.Base.{ℕ, zero, suc, ◌%◌, ◌≡◌, ◌⊎◌, refl, arith, none, some, List, [], ◌∷◌, get_elem?}
use ultra_mds.Base.Int.{pos}
use ultra_mds.Base.Bytes.{Bytes, bytes, same, c_string}
use ultra_mds.Double.Fixed.{Fixed, fixed_double}
use ultra_mds.Json.Tree.{tree_json, tree_double}
use ultra_mds.Ctp.{DepthMarketData}
use ultra_mds.Tick.{TickData, make_tick, instrument_id_size}
use ultra_mds.Config.Load.{resolve_endpoint}
use ultra_mds.Processor.{UnitProcessor}
use ultra_mds.Queue.Bounded.{Bounded, bounded_queue, Bounded-IsSpscQueue}
use ultra_mds.Dispatcher.{Dispatcher, dispatch, offer_at}
use ultra_mds.Dispatcher.Mapping.{first_index}
use ultra_mds.Dispatcher.Route.{IsReady, init_dispatcher-IsReady, dispatch-listed, dispatch-routes}
use ultra_mds.Dispatcher.Confined.{Run, started, then_, fed, IsConfined, Run-IsConfined}
use ultra_mds.Base.{true}
use ultra_mds.Handler.Lifecycle.{new_handler, at_condition}
use ultra_mds.System.{Host, ContractContainer, System}
use ultra_mds.System.Start.{fresh-IsConfined}
use ultra_mds.Tests.Data.{sample_data}
use ultra_mds.Tests.Rules.{parse_address, global_config}

abbrev name_of : ℕ → Bytes
name_of zero = bytes "rb2405"
name_of (suc zero) = bytes "hc2405"
name_of (suc (suc i)) = bytes "rb2410"

abbrev pub names : List Bytes
names = bytes "rb2405" ∷ bytes "hc2405" ∷ bytes "rb2410" ∷ []

abbrev pub dispatcher : Dispatcher
dispatcher = (init_dispatcher-IsReady name_of 2 3 (omega arith)).0

pub ready : IsReady names 2 dispatcher
ready = (init_dispatcher-IsReady name_of 2 3 (omega arith)).2

abbrev pub queue : Bounded (TickData Fixed)
queue = record { capacity = 8; elements = [] }

abbrev pub record_of_feed : DepthMarketData Fixed
record_of_feed = sample_data (bytes "09:30:01") 500

dispatch-routes_example :
    ((first_index (c_string instrument_id_size record_of_feed.instrument_id) names ≡ none)
      × (dispatch record_of_feed (pos 7) dispatcher (queue ∷ queue ∷ [])
          ≡ some (queue ∷ queue ∷ [], [])))
    ⊎ ((i : ℕ) × (q : Bounded (TickData Fixed)) × (first_index
            (c_string instrument_id_size record_of_feed.instrument_id)
            names
          ≡ some i)
        × (get_elem? (queue ∷ queue ∷ []) (i % 2) ≡ some q)
        × (dispatch record_of_feed (pos 7) dispatcher (queue ∷ queue ∷ [])
            ≡ some (
                offer_at
                  (make_tick record_of_feed (some i) (pos 7))
                  (i % 2)
                  (queue ∷ queue ∷ [])
                  q)))
unfolding c_string
dispatch-routes_example =
    dispatch-routes ready record_of_feed (pos 7) (queue ∷ queue ∷ []) (omega arith) refl
      (omega arith)

-- After the first tick of rb2405.
abbrev pub fed_queue : Bounded (TickData Fixed)
fed_queue = record { capacity = 8; elements = make_tick record_of_feed (some 0) (pos 7) ∷ [] }

pub fed_first :
    dispatch record_of_feed (pos 7) dispatcher (queue ∷ queue ∷ [])
    ≡ some (fed_queue ∷ queue ∷ [], [])
unfolding first_index same c_string
fed_first =
    dispatch-listed ready record_of_feed (pos 7) (queue ∷ queue ∷ []) (omega arith) 0 queue refl
      refl (omega arith)

fed_once : Run Fixed dispatcher (queue ∷ queue ∷ []) (fed_queue ∷ queue ∷ [])
fed_once = then_ started (fed record_of_feed (pos 7) [] fed_first)

Run-IsConfined_example : IsConfined Bounded-IsSpscQueue 2 (fed_queue ∷ queue ∷ [])
Run-IsConfined_example =
    Run-IsConfined Bounded-IsSpscQueue 2 ready (omega arith)
      (fresh-IsConfined Bounded-IsSpscQueue 8 2) fed_once

abbrev pub sample_container : ContractContainer
sample_container = record { contracts = bytes "rb2405" ∷ [] }

abbrev pub loaded : UnitProcessor Fixed
loaded = record {
  last_timestamp = pos 0;
  contract_name = bytes "rb2405";
  config = (resolve_endpoint parse_address global_config).0;
}

-- Four cores, and nothing fails.
abbrev pub host : Host
host = record {
  sysconf = pos 4;
  opens = λ _. true;
  sets = λ _. true;
  spawns = λ _. true;
  set_affinity = λ _ _. pos 0;
}

abbrev pub sample_system : System Fixed (Bounded (TickData Fixed))
sample_system = record {
  processors = loaded ∷ [];
  queues = queue ∷ [];
  handlers = record new_handler { my_running = true; worker = at_condition } ∷ [];
  core_ids = 0 ∷ [];
  dispatcher = record {
    contracts = 0 ∷ [];
    unit_processors = 0 ∷ [];
    mapping = (bytes "rb2405", record { index_contract = 0; index_unit_processor = 0 }) ∷ [];
  };
}
