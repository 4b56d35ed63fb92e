-- ===== src/System.antt =====
-- SystemStart.h, class SystemStarter, and CtpRelated/Contract/Container.h: the start of the program, from
-- the parsed configuration to the handlers, their queues and the dispatcher. `none` is an exception.
pub mod Cores
pub mod Handlers
pub mod Start
use ultra_mds.Base.{
  ℕ, zero, suc, ◌+◌, ◌*◌, ◌/◌, ◌%◌, max, min, Bool, true, false, Option, none, some, List, [], ◌∷◌,
  ◌++◌, ◌>>=◌, ◌==◌, ltb, if◌then◌else◌, length, get_elem?, map,
}
use ultra_mds.Base.Int.{ℤ, pos, negsuc, ltb_ℤ}
use ultra_mds.Base.Bytes.{Bytes, bytes}
use ultra_mds.Double.{Double}
use ultra_mds.Json.{Json, JsonDouble}
use ultra_mds.Tick.{TickData}
use ultra_mds.Queue.{SpscQueue}
use ultra_mds.Config.{Address, SpecialConfig, ConfigMessage}
use ultra_mds.Config.Load.{from_json}
use ultra_mds.Processor.{UnitProcessor}
use ultra_mds.Processor.Validate.{get_contract_name}
use ultra_mds.Handler.Lifecycle.{TickHandler, construct, Called, done, thrown, terminated, start}
use ultra_mds.Reader.{
  get_string, get_string_array, get_contract_validation_config, get_global_validation_config,
}
use ultra_mds.Login.{Loginer, set_broker_id, set_user_id, set_password, set_tcp_address}
use ultra_mds.Dispatcher.{Dispatcher, no_dispatcher, init_dispatcher}
use ultra_mds.Dispatcher.Route.{indices}

pub record ContractContainer : Type 0 where
  pub contracts : List Bytes

abbrev pub clear : ContractContainer → ContractContainer
clear c = record c { contracts = [] }

abbrev pub add_contract : Bytes → ContractContainer → ContractContainer
add_contract contract c = record c { contracts = c.contracts ++ contract ∷ [] }

abbrev pub add_contracts : List Bytes → ContractContainer → ContractContainer
add_contracts contracts c = record c { contracts = c.contracts ++ contracts }

abbrev pub get_all_contracts : ContractContainer → List Bytes
get_all_contracts c = c.contracts

abbrev pub size : ContractContainer → ℕ
size c = length c.contracts

abbrev pub empty : ContractContainer → Bool
empty c = length c.contracts == 0

unfoldable pub get_biz_core_id : ℕ → ℕ → ℕ
get_biz_core_id thread_idx zero = 0
get_biz_core_id thread_idx (suc zero) = 0
get_biz_core_id thread_idx (suc (suc n)) = thread_idx % suc (suc n)

abbrev pub max_tick_queue_size : ℕ
max_tick_queue_size = 8

-- What `sysconf` returns, or 1 when that is not positive.
abbrev pub cpu_count_of : ℤ → ℕ
cpu_count_of (pos zero) = 1
cpu_count_of (pos (suc n)) = suc n
cpu_count_of (negsuc n) = 1

unfoldable pub thread_num_of : ℕ → ℕ → ℕ
thread_num_of cpu_count contract_num =
    let available_core_num = if ltb 1 cpu_count then cpu_count else 1 in
    max 1 (min available_core_num contract_num)

unfoldable pub queue_size_of : ℕ → ℕ → ℕ
queue_size_of contract_num thread_num = max 1 (contract_num / thread_num) * max_tick_queue_size

module _ {J : Type 0} ⦃js : Json J⦄ where
  -- An empty list throws.
  unfoldable pub load_contract_list : J → ContractContainer → Option ContractContainer
  load_contract_list root container =
      get_string_array root (bytes "subscribed_contracts" ∷ []) >>= λ contracts.
      if length contracts == 0 then none else some (add_contracts contracts (clear container))

  unfoldable pub login_text : J → Bytes → Option Bytes
  login_text root key = get_string root (bytes "login" ∷ key ∷ []) []

  -- The account, the global rules and the contracts.
  unfoldable pub config_init :
      J → Loginer → ContractContainer → Option (Loginer × J × ContractContainer)
  config_init root loginer container = do
    broker_id ← login_text root (bytes "brokerID")
    user_id ← login_text root (bytes "userID")
    password ← login_text root (bytes "password")
    tcp_address ← login_text root (bytes "tcpAddress")
    let loginer' : Loginer =
        set_tcp_address tcp_address
          (set_password password (set_user_id user_id (set_broker_id broker_id loginer)))
    container' ← load_contract_list root container
    some (loginer', get_global_validation_config root, container')

module _ {W J : Type 0} ⦃d : Double W⦄ ⦃js : Json J⦄ ⦃jd : JsonDouble W J⦄ where
  -- The constructor of `UnitProcessor`, and the loading's log lines.
  unfoldable pub make_processor :
      (Bytes → Option Address)
      → Bytes
      → J
      → Option J
      → Option (UnitProcessor W × List ConfigMessage)
  make_processor make_address contract_name global rules =
      from_json make_address global rules >>= λ (config, messages).
      some (
        record { last_timestamp = pos 0; contract_name = contract_name; config = config },
        messages,
      )

  -- The loop over the contracts.
  unfoldable pub make_processors :
      (Bytes → Option Address) → J → J → List Bytes → Option (List (UnitProcessor W))
  make_processors make_address root global [] = some []
  make_processors make_address root global (contract ∷ contracts) =
      make_processor make_address contract global (get_contract_validation_config root contract)
      >>= λ (p, _). make_processors make_address root global contracts >>= λ ps. some (p ∷ ps)

-- What the operating system answers: `sysconf`, and for the i-th handler whether its socket is opened and
-- takes its option, whether its thread can be made, and what `pthread_setaffinity_np` returns for a core.
pub record Host : Type 0 where
  pub sysconf : ℤ
  pub opens : ℕ → Bool
  pub sets : ℕ → Bool
  pub spawns : ℕ → Bool
  pub set_affinity : ℕ → ℕ → ℤ

-- A handler that `start` returns from; an exception, or the end of the process, is `none`.
abbrev pub called : Called → Option TickHandler
called (done h) = some h
called (thrown h) = none
called terminated = none

-- `make_unique<TickHandler>(tickQ)` and `start` of the i-th handler.
unfoldable pub start_handler : Host → ℕ → ℕ → Option TickHandler
start_handler host cpu_count i =
    let core_id = get_biz_core_id i cpu_count in
    construct (host.opens i) (host.sets i) >>= λ h.
    called (start (host.spawns i) core_id (host.set_affinity i core_id) h)

-- The loop over the handlers.
unfoldable pub start_handlers : Host → ℕ → List ℕ → Option (List TickHandler)
start_handlers host cpu_count [] = some []
start_handlers host cpu_count (i ∷ threads) = do
  h ← start_handler host cpu_count i
  hs ← start_handlers host cpu_count threads
  some (h ∷ hs)

-- What the start leaves: the processors, the handlers with their queues and cores, by the handler's
-- index, and the dispatcher.
pub record System (W Q : Type 0) : Type 0 where
  pub processors : List (UnitProcessor W)
  pub queues : List Q
  pub handlers : List TickHandler
  pub core_ids : List ℕ
  pub dispatcher : Dispatcher

module _ {W : Type 0} where
  -- `getContractName` of the processor that a pointer leads to.
  abbrev pub name_at : List (UnitProcessor W) → ℕ → Bytes
  name_at [] i = []
  name_at (p ∷ ps) zero = get_contract_name p
  name_at (p ∷ ps) (suc i) = name_at ps i

module _ {W J Q : Type 0} ⦃d : Double W⦄ ⦃js : Json J⦄ ⦃jd : JsonDouble W J⦄
    ⦃qs : SpscQueue (TickData W) Q⦄ where
  unfoldable pub handler_and_dispatcher_start :
      (Bytes → Option Address) → Host → J → J → ContractContainer → Option (System W Q)
  handler_and_dispatcher_start make_address host root global container = do
    let contract_list : List Bytes = get_all_contracts container
    processors ← make_processors make_address root global contract_list
    let cpu_count : ℕ = cpu_count_of host.sysconf
    let thread_num : ℕ = thread_num_of cpu_count (length contract_list)
    let queue_size : ℕ = queue_size_of (length contract_list) thread_num
    let threads : List ℕ = indices 0 thread_num
    handlers ← start_handlers host cpu_count threads
    dispatcher ←
        init_dispatcher (name_at processors) threads (indices 0 (length processors)) no_dispatcher
    some (record {
      processors = processors;
      queues = map (λ i. qs.make queue_size) threads;
      handlers = handlers;
      core_ids = map (λ i. get_biz_core_id i cpu_count) threads;
      dispatcher = dispatcher;
    })
