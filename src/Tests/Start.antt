-- ===== src/Tests/Start.antt =====
-- The start, the dispatcher, the reader, the login and the messages on concrete inputs.
use ultra_mds.Base.{ℕ, zero, suc, ◌+◌, ◌<◌, ◌≡◌, ◌↔◌, refl, min, arith, some, [], ◌∷◌}
use ultra_mds.Base.Int.{ℤ, pos, negsuc}
use ultra_mds.Base.Bytes.{Bytes, bytes}
use ultra_mds.Double.Fixed.{fixed_double, whole}
use ultra_mds.Json.Tree.{
  Tree, object, end, field, text, array, cons, nil, tree_json, tree_double, Tree-IsJson,
}
use ultra_mds.Tick.{make_tick, fill_proto_data, levels, no_volumes}
use ultra_mds.Tick.Message.{Texts, empty_message, fill_proto_data-make_tick}
use ultra_mds.Queue.Bounded.{bounded_queue}
use ultra_mds.Dispatcher.{Dispatcher, no_dispatcher, find, init_dispatcher}
use ultra_mds.Dispatcher.Mapping.{first_index, unit_of, init_dispatcher-find}
use ultra_mds.Reader.{get_string, get_bool, get_int, get_double, get_string_array}
use ultra_mds.Reader.Path.{Finds, get_typed_iff}
use ultra_mds.Base.{true}
use ultra_mds.Reader.Nested.{get_string_array_nested}
use ultra_mds.Login.{Loginer, login, max_retry}
use ultra_mds.Login.Retry.{failures, requests, login-failures}
use ultra_mds.System.{get_biz_core_id, thread_num_of}
use ultra_mds.System.Cores.{get_biz_core_id-distinct}
use ultra_mds.Tests.Data.{sample_data}

-- Three contracts on two handlers.
abbrev name_of : ℕ → Bytes
name_of zero = bytes "rb2405"
name_of (suc zero) = bytes "hc2405"
name_of (suc (suc i)) = bytes "rb2410"

init_dispatcher-find_example :
    (d : Dispatcher) × (init_dispatcher name_of (0 ∷ 1 ∷ []) (0 ∷ 1 ∷ 2 ∷ []) no_dispatcher
      ≡ some d)
    × (d.contracts ≡ 0 ∷ 1 ∷ [])
    × (d.unit_processors ≡ 0 ∷ 1 ∷ 2 ∷ [])
    × ((key : Bytes)
        → find key d.mapping
          ≡ unit_of 2 (first_index key (bytes "rb2405" ∷ bytes "hc2405" ∷ bytes "rb2410" ∷ [])))
init_dispatcher-find_example =
    init_dispatcher-find name_of (0 ∷ 1 ∷ []) (0 ∷ 1 ∷ 2 ∷ []) (omega arith)

get_biz_core_id-distinct_example :
    (get_biz_core_id 1 4 < 4) × ((get_biz_core_id 1 4 ≡ get_biz_core_id 2 4) ↔ ◌≡◌ {A = ℕ} 1 2)
unfolding thread_num_of
get_biz_core_id-distinct_example =
    get_biz_core_id-distinct 4 3 1 2 (omega arith) (omega arith) (omega arith)

abbrev root : Tree
root = object (
    field (bytes "login")
      (object (field (bytes "brokers") (array (cons (text (bytes "9999")) nil)) end)) end)

abbrev account_json : Tree
account_json =
    object (field (bytes "login") (object (field (bytes "user") (text (bytes "9999")) end)) end)

get_string_array_nested_example :
    get_string_array root (bytes "login" ∷ bytes "brokers" ∷ []) ≡ some []
get_string_array_nested_example =
    get_string_array_nested Tree-IsJson root (bytes "login") (bytes "brokers") []

-- A text where one is expected, no flag and no integer, and a number without its path.
get_typed_iff_example :
    ((get_string account_json (bytes "login" ∷ bytes "user" ∷ []) [] ≡ some (bytes "9999"))
      ↔ Finds tree_json.is_string tree_json.get_string account_json
          (bytes "login" ∷ bytes "user" ∷ [])
          []
          (bytes "9999"))
    × ((get_bool account_json (bytes "login" ∷ bytes "user" ∷ []) true ≡ some true)
        ↔ Finds tree_json.is_boolean tree_json.get_bool account_json
            (bytes "login" ∷ bytes "user" ∷ [])
            true
            true)
    × ((get_int account_json (bytes "login" ∷ bytes "user" ∷ []) (pos 7) ≡ some (pos 7))
        ↔ Finds tree_json.is_number_integer tree_json.get_int account_json
            (bytes "login" ∷ bytes "user" ∷ [])
            (pos 7)
            (pos 7))
    × ((get_double account_json (bytes "login" ∷ bytes "user" ∷ []) (whole (pos 1))
          ≡ some (whole (pos 1)))
        ↔ Finds tree_json.is_number tree_double.get_double account_json
            (bytes "login" ∷ bytes "user" ∷ [])
            (whole (pos 1))
            (whole (pos 1)))
get_typed_iff_example =
    get_typed_iff account_json (bytes "login" ∷ bytes "user" ∷ []) [] (bytes "9999") true true
      (pos 7) (pos 7) (whole (pos 1)) (whole (pos 1))

abbrev account : Loginer
account = record {
  broker_id = bytes "9999";
  user_id = bytes "user";
  password = bytes "secret";
  tcp_address = [];
}

-- The second request is accepted.
abbrev answer : ℕ → ℤ
answer zero = negsuc 2
answer (suc _) = pos 0

login-failures_example :
    ((login answer account).0 ≡ pos 0 ↔ failures answer max_retry 0 < max_retry)
    × (requests (login answer account).1 ≡ min (failures answer max_retry 0 + 1) max_retry)
login-failures_example = login-failures answer account

texts :
    Texts
      (sample_data (bytes "09:30:01") 500)
      (bytes "rb2405")
      (bytes "SHFE")
      (bytes "09:30:01")
      (bytes "20240102")
      (bytes "20240102")
texts = record {
  instrument_id_lem = ([], refl, omega arith, ground arith);
  exchange_id_lem = ([], refl, omega arith, ground arith);
  update_time_lem = ([], refl, omega arith, ground arith);
  action_day_lem = ([], refl, omega arith, ground arith);
  trading_day_lem = ([], refl, omega arith, ground arith);
}

fill_proto_data-make_tick_example :
    fill_proto_data
      (make_tick (sample_data (bytes "09:30:01") 500) (some 0) (pos 7))
      (empty_message (whole (pos 0)))
    ≡ record {
      last_price = whole (pos 3700);
      bid_price =
          whole (pos 3699)
          ∷ whole (pos 3698)
          ∷ whole (pos 3697)
          ∷ whole (pos 3696)
          ∷ whole (pos 3695)
          ∷ [];
      ask_price =
          whole (pos 3701)
          ∷ whole (pos 3702)
          ∷ whole (pos 3703)
          ∷ whole (pos 3704)
          ∷ whole (pos 3705)
          ∷ [];
      limit_up = whole (pos 4000);
      limit_down = whole (pos 3400);
      volume = pos 120;
      updatemill = pos 500;
      bid_volume = levels no_volumes;
      ask_volume = levels no_volumes;
      instrument_id = bytes "rb2405";
      exchange_id = bytes "SHFE";
      update_time = bytes "09:30:01";
      action_day = bytes "20240102";
      trading_day = bytes "20240102";
    }
fill_proto_data-make_tick_example =
    fill_proto_data-make_tick (sample_data (bytes "09:30:01") 500) (some 0) (pos 7) (whole (pos 0))
      (bytes "rb2405") (bytes "SHFE") (bytes "09:30:01") (bytes "20240102") (bytes "20240102") texts
