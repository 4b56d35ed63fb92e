-- ===== src/Application/Session.antt =====
-- The session that follows the start.
use mathlib.Core.Path.{subst}
use ultra_mds.Base.{◌<◌, ◌≡◌, sym, Bool, true, Option, some, List, [], ◌∷◌, length, All}
use ultra_mds.Base.Int.{ℤ}
use ultra_mds.Base.Bytes.{Bytes, bytes}
use ultra_mds.Double.{Double}
use ultra_mds.Json.{Json, JsonDouble}
use ultra_mds.Ctp.{Callback}
use ultra_mds.Tick.{TickData}
use ultra_mds.Queue.{SpscQueue, IsSpscQueue}
use ultra_mds.Config.{Address}
use ultra_mds.Reader.{opened, open_config, get_string_array}
use ultra_mds.Logger.{LogCall}
use ultra_mds.Login.{Loginer}
use ultra_mds.Dispatcher.Confined.{started, IsConfined, Run-IsConfined}
use ultra_mds.System.{Host, ContractContainer}
use ultra_mds.Market.{MarketManager, get_market_api, Api, MarketEvent, session}
use ultra_mds.Market.Session.{IsProper, session-Run}
use ultra_mds.Market.Subscribe.{subscriptions, expected, session_subscribes}
use ultra_mds.Application.Start.{IsStarted, app_start-IsStarted}
use ultra_mds.Application.{Application, config_path, app_start}

module _ {W Q : Type 0} ⦃qs : SpscQueue (TickData W) Q⦄ (laws : IsSpscQueue (TickData W) Q) where
  -- What a session does to a started system.
  abbrev Served :
      (contracts : List Bytes) (calls : List (Api × ℤ × Callback W)) → Application W Q → Type 0
  Served contracts calls a =
      (queues : List Q) × (events : List MarketEvent) × (session a.loginer a.container
          a.system.dispatcher calls a.system.queues
        ≡ some (queues, events))
      × (subscriptions events ≡ expected contracts calls)
      × IsConfined laws (length a.system.queues) queues

  IsStarted-Served :
      (a : Application W Q) (calls : List (Api × ℤ × Callback W))
      → IsStarted laws a.container a.system
      → All (λ call. IsProper call.2) calls
      → Served a.container.contracts calls a
  IsStarted-Served a calls s proper =
      let (queues, events, run, steps, _) =
        session-Run s.ready s.positive a.loginer a.container calls a.system.queues a.system.queues
          proper s.confined.0 started in
      let size : s.n ≡ length a.system.queues = sym s.confined.0 in
      (
        queues,
        events,
        run,
        session_subscribes a.loginer a.container a.system.dispatcher calls a.system.queues queues
            events run,
        subst (λ k. IsConfined laws k queues) size
            (Run-IsConfined laws s.n s.ready s.positive s.confined steps),
      )

module _ {W J Q : Type 0} ⦃dw : Double W⦄ ⦃js : Json J⦄ ⦃jd : JsonDouble W J⦄
    ⦃qs : SpscQueue (TickData W) Q⦄ (laws : IsSpscQueue (TickData W) Q) where
  -- When the start succeeds, the configuration file was read, the container holds the contracts of its list
  -- `subscribed_contracts`, at least one, and the API's object is made. A session of the started program,
  -- whose callbacks keep the API's promise, does not fault. Its subscriptions are those that its logins
  -- call for, each of all the contracts of the list, and at its end each queue holds only ticks of the
  -- processors of its handler.
  pub app_start-session :
      (throws : LogCall → Bool) (default_log_path : Bytes) (read_file : Bytes → Option Bytes)
      (parse : Bytes → Option J) (make_address : Bytes → Option Address) (host : Host)
      (loginer : Loginer) (container : ContractContainer) (manager : MarketManager)
      (a : Application W Q) (calls : List (Api × ℤ × Callback W))
      → app_start throws default_log_path read_file parse make_address host loginer container
          manager
        ≡ some a
      → All (λ call. IsProper call.2) calls
      → (root : J) × (contracts : List Bytes) × (open_config read_file parse config_path
          ≡ opened root)
        × (get_string_array root (bytes "subscribed_contracts" ∷ []) ≡ some contracts)
        × (0 < length contracts)
        × (get_market_api a.manager ≡ true)
        × Served laws contracts calls a
  app_start-session throws default_log_path read_file parse make_address host loginer container
        manager a calls e proper =
      let (root, is_opened, listed, many, made, started') =
        app_start-IsStarted laws throws default_log_path read_file parse make_address host loginer
          container manager a e in
      (
        root,
        a.container.contracts,
        is_opened,
        listed,
        many,
        made,
        IsStarted-Served laws a calls started' proper,
      )
