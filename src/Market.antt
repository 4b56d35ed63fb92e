-- ===== src/Market.antt =====
-- CtpRelated/MarketSPI.cpp: the callbacks of the exchange's market interface. What a callback does that
-- can be seen are its calls of the API and its log lines; `none` is a dereferenced null pointer, a read
-- past an array of characters, or a fault of the dispatcher.
pub mod Session
pub mod Subscribe
use ultra_mds.Base.{
  ℕ, ◌≡◌, Bool, true, false, not, ◌&&◌, ◌||◌, Option, none, some, List, [], ◌∷◌, ◌++◌, ◌>>=◌, ◌==◌,
  if◌then◌else◌, length, ltb, map,
}
use ultra_mds.Base.Int.{ℤ, pos, negsuc, eq_ℤ}
use ultra_mds.Base.Bytes.{Bytes, bytes, c_string}
use ultra_mds.Ctp.{
  RspUserLogin, RspInfo, SpecificInstrument, DepthMarketData, ApiCall, create_ftdc_md_api,
  register_spi, register_front, init, Callback, front_connected, front_disconnected,
  heart_beat_warning, rsp_user_login, rsp_user_logout, rsp_qry_multicast_instrument, rsp_error,
  rsp_sub_market_data, rsp_un_sub_market_data, rsp_sub_for_quote_rsp, rsp_un_sub_for_quote_rsp,
  rtn_depth_market_data, rtn_for_quote_rsp,
}
use ultra_mds.Tick.{TickData, instrument_id_size}
use ultra_mds.Queue.{SpscQueue}
use ultra_mds.Dispatcher.{Dispatcher, DispatchMessage, dispatch}
use ultra_mds.Login.{Loginer, LoginEvent, get_tcp_address, login}
use ultra_mds.System.{ContractContainer, get_all_contracts}

-- The exchange's answers to the calls of one callback: to the n-th login request, and to a
-- subscription.
pub record Api : Type 0 where
  pub login_answer : ℕ → ℤ
  pub subscribe_answer : List Bytes → ℤ

pub data Reason : Type 0 where
  read_failed write_failed heart_beat_missed heart_beat_unsent closed_by_server unknown : Reason

pub data MarketEvent : Type 0 where
  -- Calls: what the login does, and a subscription with its list and count.
  login_event : LoginEvent → MarketEvent
  subscribe_called : List Bytes → ℕ → MarketEvent
  -- Log lines.
  login_failed : ℤ → MarketEvent
  disconnected : ℤ → Reason → MarketEvent
  login_refused : ℤ → Bytes → MarketEvent
  no_contracts : MarketEvent
  subscribe_sent : ℕ → MarketEvent
  subscribe_failed : ℤ → MarketEvent
  instrument_subscribed : Bytes → ℤ → MarketEvent
  instrument_refused : Bytes → ℤ → Bytes → ℤ → MarketEvent
  all_processed : ℤ → MarketEvent
  dispatched : DispatchMessage → MarketEvent

unfoldable pub on_front_connected : Api → Loginer → List MarketEvent
on_front_connected api loginer =
    let (result, events) = login api.login_answer loginer in
    map login_event events ++ (if eq_ℤ result (pos 0) then [] else login_failed result ∷ [])

-- The `switch` on the reason.
unfoldable pub reason_of : ℤ → Reason
reason_of n_reason =
    if eq_ℤ n_reason (pos 0x1001)
    then read_failed
    else if eq_ℤ n_reason (pos 0x1002)
    then write_failed
    else if eq_ℤ n_reason (pos 0x2001)
    then heart_beat_missed
    else if eq_ℤ n_reason (pos 0x2002)
    then heart_beat_unsent
    else if eq_ℤ n_reason (pos 0x3001)
    then closed_by_server
    else unknown

unfoldable pub on_front_disconnected : ℤ → List MarketEvent
on_front_disconnected n_reason = disconnected n_reason (reason_of n_reason) ∷ []

abbrev pub error_msg_size : ℕ
error_msg_size = 81

-- A response without an `RspInfo`, or with the code 0.
abbrev pub is_success : Option RspInfo → Bool
is_success none = true
is_success (some info) = eq_ℤ info.error_id (pos 0)

abbrev pub is_there : {A : Type 0} → Option A → Bool
is_there none = false
is_there (some _) = true

-- An array of n characters read up to its NUL, without a bound: `none` if the array has none.
abbrev pub text_of : ℕ → Bytes → Option Bytes
text_of n array = let text = c_string n array in if ltb (length text) n then some text else none

abbrev pub refusal : Option RspInfo → Option (List MarketEvent)
refusal none = some []
refusal (some info) = text_of error_msg_size info.error_msg >>= λ message.
    some (login_refused info.error_id message ∷ [])

unfoldable pub subscribe : Api → List Bytes → List MarketEvent
subscribe api contracts =
    let ret = api.subscribe_answer contracts in
    subscribe_called contracts (length contracts)
    ∷ (if eq_ℤ ret (pos 0) then subscribe_sent (length contracts) else subscribe_failed ret)
    ∷ []

-- The request's id and its last mark are not read.
unfoldable pub on_rsp_user_login :
    Api → ContractContainer → Option RspUserLogin → Option RspInfo → Option (List MarketEvent)
on_rsp_user_login api container user_login info =
    let contracts = get_all_contracts container in
    if not (is_success info)
    then refusal info
    else if not (is_there user_login)
    then some []
    else if length contracts == 0
    then some (no_contracts ∷ [])
    else some (subscribe api contracts)

-- The name in the log line of a refusal; the texts are in English here.
abbrev pub shown : Bytes → Bytes
shown [] = bytes "empty"
shown (c ∷ cs) = c ∷ cs

abbrev pub name_of : Option SpecificInstrument → Option Bytes
name_of none = some []
name_of (some specific) = text_of instrument_id_size specific.instrument_id

abbrev pub error_of : Option RspInfo → Option RspInfo
error_of none = some (record { error_id = negsuc 0; error_msg = bytes "unknown" })
error_of (some info) =
    text_of error_msg_size info.error_msg >>= λ message. some (record info { error_msg = message })

unfoldable pub on_rsp_sub_market_data :
    Option SpecificInstrument → Option RspInfo → ℤ → Bool → Option (List MarketEvent)
on_rsp_sub_market_data specific info request_id is_last = do
  instrument_id ← name_of specific
  events ←
      if is_success info
      then some (
          if length instrument_id == 0
          then []
          else instrument_subscribed instrument_id request_id ∷ [])
      else (error_of info >>= λ error.
          some (
            instrument_refused (shown instrument_id) error.error_id error.error_msg request_id
            ∷ []))
  some (events ++ (if is_last then all_processed request_id ∷ [] else []))

-- What `MarketManager::Init` does: it makes the callback object, calls the API and logs.
pub data ManagerEvent : Type 0 where
  spi_created initialised : ManagerEvent
  api_called : ApiCall → ManagerEvent

-- The singleton's members, by whether they point to an object.
pub record MarketManager : Type 0 where
  pub market_spi : Bool
  pub market_api : Bool

abbrev pub no_manager : MarketManager
no_manager = record { market_spi = false; market_api = false }

abbrev pub get_market_api : MarketManager → Bool
get_market_api manager = manager.market_api

unfoldable pub init_manager : Loginer → MarketManager → MarketManager × List ManagerEvent
init_manager loginer manager = (
  record manager { market_spi = true; market_api = true },
  spi_created
      ∷ api_called (create_ftdc_md_api [] false false true)
      ∷ api_called register_spi
      ∷ api_called (register_front (get_tcp_address loginer))
      ∷ api_called init
      ∷ initialised
      ∷ [],
)

-- A callback that leaves the queues as they are.
abbrev pub logged :
    {Q : Type 0} → List Q → Option (List MarketEvent) → Option (List Q × List MarketEvent)
logged queues events = events >>= λ es. some (queues, es)

module _ {W Q : Type 0} ⦃qs : SpscQueue (TickData W) Q⦄ where
  unfoldable pub on_rtn_depth_market_data :
      ℤ → Dispatcher → Option (DepthMarketData W) → List Q → Option (List Q × List MarketEvent)
  on_rtn_depth_market_data now d data' queues = data' >>= λ field.
      dispatch field now d queues >>= λ (queues', messages). some (queues', map dispatched messages)

  -- The queues and the events after a callback.
  unfoldable pub call_back :
      Api
      → ℤ
      → Loginer
      → ContractContainer
      → Dispatcher
      → Callback W
      → List Q
      → Option (List Q × List MarketEvent)
  call_back api now loginer container d front_connected queues =
      some (queues, on_front_connected api loginer)
  call_back api now loginer container d (front_disconnected n_reason) queues =
      some (queues, on_front_disconnected n_reason)
  call_back api now loginer container d (heart_beat_warning n_time_lapse) queues = some (queues, [])
  call_back api now loginer container d (rsp_user_login user_login info request_id is_last) queues =
      logged queues (on_rsp_user_login api container user_login info)
  call_back api now loginer container d (rsp_error info request_id is_last) queues =
      some (queues, [])
  call_back api now loginer container d (rsp_sub_market_data specific info request_id is_last)
        queues =
      logged queues (on_rsp_sub_market_data specific info request_id is_last)
  call_back api now loginer container d (rsp_un_sub_market_data specific info request_id is_last)
        queues =
      some (queues, [])
  call_back api now loginer container d (rtn_depth_market_data data') queues =
      on_rtn_depth_market_data now d data' queues
  -- The callbacks that the program does not override have empty bodies.
  call_back api now loginer container d (rsp_user_logout field info request_id is_last) queues =
      some (queues, [])
  call_back api now loginer container d (rsp_qry_multicast_instrument field info request_id is_last)
        queues =
      some (queues, [])
  call_back api now loginer container d (rsp_sub_for_quote_rsp specific info request_id is_last)
        queues =
      some (queues, [])
  call_back api now loginer container d (rsp_un_sub_for_quote_rsp specific info request_id is_last)
        queues =
      some (queues, [])
  call_back api now loginer container d (rtn_for_quote_rsp field) queues = some (queues, [])

  -- The callbacks of a session, each with the answers and the clock that it meets.
  unfoldable pub session :
      Loginer
      → ContractContainer
      → Dispatcher
      → List (Api × ℤ × Callback W)
      → List Q
      → Option (List Q × List MarketEvent)
  session loginer container d [] queues = some (queues, [])
  session loginer container d ((api, now, callback) ∷ rest) queues =
      call_back api now loginer container d callback queues >>= λ (queues', events).
      session loginer container d rest queues' >>= λ (queues'', more).
      some (queues'', events ++ more)
