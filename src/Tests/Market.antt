-- ===== src/Tests/Market.antt =====
-- A session of the exchange's callbacks, and the start of the program from a configuration file.
use ultra_mds.Base.{
  ◌<◌, ◌≡◌, ◌↔◌, refl, arith, Bool, true, false, Option, none, some, List, [], ◌∷◌, ◌++◌,
  if◌then◌else◌, length, All,
}
use ultra_mds.Base.Int.{ℤ, pos}
use ultra_mds.Base.Bytes.{Bytes, bytes, same, c_string}
use ultra_mds.Double.Fixed.{Fixed, fixed_double, units}
use ultra_mds.Json.Tree.{
  Tree, object, end, field, text, array, cons, nil, tree_json, tree_double, Tree-IsJson,
}
use ultra_mds.Ctp.{RspUserLogin, Callback, rsp_user_login, rtn_depth_market_data}
use ultra_mds.Tick.{TickData}
use ultra_mds.Config.Layers.{from_json-global}
use ultra_mds.Queue.Bounded.{Bounded, bounded_queue, Bounded-IsSpscQueue}
use ultra_mds.Processor.Validate.{get_contract_name}
use ultra_mds.Reader.{
  opened, open_config, get_string, get_string_array, descend, descend_arrays, strings_among,
  get_contract_validation_config, get_global_validation_config,
}
use ultra_mds.Logger.{
  LogCall, make_file_sink, trace, info, init, perform, log, is_refused, default_max_file_size,
  default_max_files, init-log,
}
use ultra_mds.Login.{Loginer}
use ultra_mds.Dispatcher.{init_dispatcher, assign, emplace, find}
use ultra_mds.Dispatcher.Confined.{IsConfined}
use ultra_mds.Handler.{init_udp_multicast}
use ultra_mds.Handler.Lifecycle.{construct, start, set_thread_affinity}
use ultra_mds.System.{
  start_handlers, start_handler, ContractContainer, thread_num_of, queue_size_of, get_biz_core_id,
  make_processor, make_processors, login_text, load_contract_list, config_init,
  handler_and_dispatcher_start,
}
use ultra_mds.Market.{
  Api, MarketEvent, subscribe_called, subscribe_sent, login_refused, no_manager, get_market_api,
  init_manager, session, call_back, on_rsp_user_login, subscribe,
}
use ultra_mds.Market.Session.{IsProper}
use ultra_mds.Market.Subscribe.{subscriptions, expected, session_subscribes}
use ultra_mds.Application.{Application, config_path, app_start}
use ultra_mds.Application.Session.{app_start-session}
use ultra_mds.Tests.Rules.{parse_address, global, global_config, global_layer}
use ultra_mds.Tests.Handlers.{
  host, names, dispatcher, queue, record_of_feed, loaded, sample_container, sample_system,
}

abbrev pub loginer : Loginer
loginer = record {
  broker_id = bytes "9999";
  user_id = bytes "user";
  password = bytes "secret";
  tcp_address = bytes "tcp://front";
}

abbrev pub container : ContractContainer
container = record { contracts = names }

abbrev response : RspUserLogin
response = record {
  trading_day = bytes "20240102";
  login_time = bytes "08:55:00";
  broker_id = bytes "9999";
  user_id = bytes "user";
  system_name = [];
  front_id = pos 1;
  session_id = pos 2;
  max_order_ref = [];
  shfe_time = bytes "08:55:00";
  dce_time = [];
  czce_time = [];
  ffex_time = [];
  ine_time = [];
  sys_version = [];
  gfex_time = [];
  login_dr_identity_id = pos 0;
  user_dr_identity_id = pos 0;
  last_login_time = [];
  reserve_info = [];
}

abbrev api : Api
api = record { login_answer = λ _. pos 0; subscribe_answer = λ _. pos 0 }

-- A login that is refused, one that is accepted, and a tick.
abbrev logins : List (Api × ℤ × Callback Fixed)
logins =
    (
      api,
      pos 5,
      rsp_user_login (some response)
          (some (record { error_id = pos 3; error_msg = bytes "no" ++ 0 ∷ [] })) (pos 1) true,
    )
    ∷ (api, pos 6, rsp_user_login (some response) none (pos 2) true)
    ∷ []

abbrev calls : List (Api × ℤ × Callback Fixed)
calls = (api, pos 7, rtn_depth_market_data (some record_of_feed)) ∷ logins

proper : All (λ call. IsProper call.2) calls
unfolding c_string
proper = ((record_of_feed, refl, omega arith), (omega arith, (tt, tt)))

abbrev logins_events : List MarketEvent
logins_events =
    login_refused (pos 3) (bytes "no") ∷ subscribe_called names 3 ∷ subscribe_sent 3 ∷ []

logged_in :
    session loginer container dispatcher logins (queue ∷ queue ∷ [])
    ≡ some (queue ∷ queue ∷ [], logins_events)
unfolding session call_back on_rsp_user_login subscribe c_string
logged_in = refl

session_subscribes_example : subscriptions logins_events ≡ expected names logins
session_subscribes_example =
    session_subscribes loginer container dispatcher logins (queue ∷ queue ∷ []) (queue ∷ queue ∷ [])
      logins_events logged_in

abbrev root : Tree
root = object (
    field (bytes "subscribed_contracts") (array (cons (text (bytes "rb2405")) nil))
      (field (bytes "validation") (object (field (bytes "global_default") global end)) end))

abbrev pub throws : LogCall → Bool
throws _ = false

abbrev pub log_path : Bytes
log_path = bytes "logs/test_log.txt"

abbrev pub read_file : Bytes → Option Bytes
read_file path = if same path config_path then some (bytes "{}") else none

abbrev pub parse : Bytes → Option Tree
parse _ = some root

processors_made :
    make_processors parse_address root global (bytes "rb2405" ∷ []) ≡ some (loaded ∷ [])
unfolding make_processors make_processor get_contract_validation_config descend same
processors_made =
    rw
      (from_json-global Tree-IsJson parse_address global global_config (units (pos 0)) refl
        global_layer)
      refl

abbrev account : Loginer
account = record { broker_id = []; user_id = []; password = []; tcp_address = [] }

config_made : config_init root loginer container ≡ some (account, global, sample_container)
unfolding config_init login_text load_contract_list get_string get_string_array descend
    descend_arrays strings_among get_global_validation_config same
config_made = refl

system_made :
    handler_and_dispatcher_start parse_address host root global sample_container
    ≡ some sample_system
unfolding handler_and_dispatcher_start init_dispatcher assign emplace find thread_num_of
    queue_size_of get_biz_core_id get_contract_name start_handlers start_handler construct
    init_udp_multicast start set_thread_affinity
system_made = rw processors_made refl

abbrev pub application : Application Fixed (Bounded (TickData Fixed))
application = record {
  loginer = account;
  container = sample_container;
  system = sample_system;
  manager = (init_manager account no_manager).0;
  api_calls = (init_manager account no_manager).1;
}

pub app_starts :
    app_start throws log_path read_file parse parse_address host loginer container no_manager
    ≡ some application
unfolding app_start open_config same init perform log init_manager
app_starts = rw (config_made, system_made) refl

app_start-session_example :
    (r : Tree) × (contracts : List Bytes) × (open_config read_file parse config_path ≡ opened r)
    × (get_string_array r (bytes "subscribed_contracts" ∷ []) ≡ some contracts)
    × (0 < length contracts)
    × (get_market_api application.manager ≡ true)
    × ((queues : List (Bounded (TickData Fixed))) × (events : List MarketEvent) × (session account
            sample_container sample_system.dispatcher calls sample_system.queues
          ≡ some (queues, events))
        × (subscriptions events ≡ expected contracts calls)
        × IsConfined Bounded-IsSpscQueue 1 queues)
app_start-session_example =
    app_start-session Bounded-IsSpscQueue throws log_path read_file parse parse_address host loginer
      container no_manager application calls app_starts proper

-- A log file that cannot be opened.
abbrev unopened : LogCall → Bool
unopened (make_file_sink path size files) = true
unopened _ = false

init-log_example :
    (log
        (init unopened log_path trace default_max_file_size default_max_files false).0
        info
        (bytes "started")
      ≡ none)
    ↔ (is_refused unopened log_path trace default_max_file_size default_max_files ≡ true)
init-log_example =
    init-log unopened log_path trace default_max_file_size default_max_files info (bytes "started")
