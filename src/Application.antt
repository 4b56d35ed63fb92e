-- ===== src/Application.antt =====
-- Ultra-MDS.cpp, Ultra-MDS.h and the constructor of SystemStarter in SystemStart.h: the start of the
-- program as a whole. `none` is an exception, which ends the program. The log's path is a macro of the
-- build.
pub mod Start
pub mod Session
pub mod Delivery
pub mod Forward
pub mod Loading
pub mod Errors
pub mod Genuine
use ultra_mds.Base.{Bool, false, [], Option, none, some, List, ◌>>=◌}
use ultra_mds.Base.Int.{ℤ}
use ultra_mds.Base.Bytes.{Bytes, bytes}
use ultra_mds.Double.{Double}
use ultra_mds.Json.{Json, JsonDouble}
use ultra_mds.Tick.{TickData}
use ultra_mds.Queue.{SpscQueue}
use ultra_mds.Config.{Address}
use ultra_mds.Reader.{Opened, opened, unreadable, malformed, open_config}
use ultra_mds.Logger.{LogCall, trace, info, default_max_file_size, default_max_files, init, log}
use ultra_mds.Login.{Loginer, no_account}
use ultra_mds.System.{Host, ContractContainer, System, config_init, handler_and_dispatcher_start}
use ultra_mds.Market.{ManagerEvent, MarketManager, no_manager, init_manager}

abbrev pub config_path : Bytes
config_path = bytes "./myconfig.json"

-- What the start leaves: the singletons, the system of the handlers, and the calls of the API.
pub record Application (W Q : Type 0) : Type 0 where
  pub loginer : Loginer
  pub container : ContractContainer
  pub system : System W Q
  pub manager : MarketManager
  pub api_calls : List ManagerEvent

-- The member `m_configReader`; both errors throw.
abbrev pub root_of : {J : Type 0} → Opened J → Option J
root_of (opened root) = some root
root_of unreadable = none
root_of malformed = none

module _ {W J Q : Type 0} ⦃d : Double W⦄ ⦃js : Json J⦄ ⦃jd : JsonDouble W J⦄
    ⦃qs : SpscQueue (TickData W) Q⦄ where
  unfoldable pub app_start :
      (LogCall → Bool)
      → Bytes
      → (Bytes → Option Bytes)
      → (Bytes → Option J)
      → (Bytes → Option Address)
      → Host
      → Loginer
      → ContractContainer
      → MarketManager
      → Option (Application W Q)
  app_start throws default_log_path read_file parse make_address host loginer container manager = do
    root ← root_of (open_config read_file parse config_path)
    let (logger, _) =
        init throws default_log_path trace default_max_file_size default_max_files false
    -- `ConfigInit` logs whether it succeeds or fails.
    _ ← log logger info []
    (loginer', global, container') ← config_init root loginer container
    system ← handler_and_dispatcher_start make_address host root global container'
    let (manager', calls) = init_manager loginer' manager
    some (record {
      loginer = loginer';
      container = container';
      system = system;
      manager = manager';
      api_calls = calls;
    })

  -- `main`, up to the loop that sleeps: the start on the singletons' initial states.
  unfoldable pub main :
      (LogCall → Bool)
      → Bytes
      → (Bytes → Option Bytes)
      → (Bytes → Option J)
      → (Bytes → Option Address)
      → Host
      → Option (Application W Q)
  main throws default_log_path read_file parse make_address host =
      app_start throws default_log_path read_file parse make_address host no_account
        (record { contracts = [] }) no_manager
