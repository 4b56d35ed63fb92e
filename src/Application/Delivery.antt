-- ===== src/Application/Delivery.antt =====
-- What the started program delivers.
use ultra_mds.Base.{ℕ, ◌%◌, ◌≡◌, refl, sym, Bool, Option, some, [], ◌++◌, length, get_elem?}
use ultra_mds.Base.Int.{ℤ}
use ultra_mds.Base.Bytes.{Bytes}
use ultra_mds.Double.{Double}
use ultra_mds.Json.{Json, JsonDouble}
use ultra_mds.Tick.{TickData, TickDataMes}
use ultra_mds.Queue.{SpscQueue, IsSpscQueue}
use ultra_mds.Config.{Address, Endpoint}
use ultra_mds.Logger.{LogCall}
use ultra_mds.Login.{Loginer}
use ultra_mds.Processor.{UnitProcessor}
use ultra_mds.Processor.Validate.History.{validate_all}
use ultra_mds.Processor.Validate.Replay.{Replayed}
use ultra_mds.System.{Host, ContractContainer, System}
use ultra_mds.Market.{MarketManager}
use ultra_mds.Pipeline.{World, Reach}
use ultra_mds.Pipeline.Select.{ticks_of, sent_of}
use ultra_mds.Pipeline.Order.{taken}
use ultra_mds.Pipeline.Sent.{messages_of}
use ultra_mds.Pipeline.Flow.{IsFresh}
use ultra_mds.Pipeline.Delivery.{delivery_in_order, delivery_sends}
use ultra_mds.Application.{Application, app_start}
use ultra_mds.Application.Start.{IsStarted, IsStarted-empty, app_start-IsStarted}

-- The state in which the threads of a started system begin.
abbrev pub begun : {W Q : Type 0} → System W Q → World W Q
begun s = record { queues = s.queues; processors = s.processors; entered = []; turns = [] }

module _ {W Q : Type 0} ⦃dw : Double W⦄ ⦃qs : SpscQueue (TickData W) Q⦄
    (laws : IsSpscQueue (TickData W) Q) (serialize : TickDataMes W → Option Bytes)
    (send_to : ℤ → Endpoint → Bytes → Bool) where
  pub IsStarted-IsFresh :
      {container : ContractContainer} {s : System W Q} (started : IsStarted laws container s)
      → IsFresh laws started.n (begun s)
  IsStarted-IsFresh started = record {
    size = started.confined.0;
    empty = IsStarted-empty laws started;
    none_entered = refl;
    none_taken = refl;
  }

module _ {W J Q : Type 0} ⦃dw : Double W⦄ ⦃js : Json J⦄ ⦃jd : JsonDouble W J⦄
    ⦃qs : SpscQueue (TickData W) Q⦄ (laws : IsSpscQueue (TickData W) Q)
    (serialize : TickDataMes W → Option Bytes) (send_to : ℤ → Endpoint → Bytes → Bool) where
  -- From a start of the program that succeeds, and in every interleaving of the market's thread and the
  -- handlers' threads: for every processor the ticks that entered its queue are those that its handler has
  -- taken and then those that wait in the queue, in their order, and what has been sent for it are the
  -- messages of the taken ticks that pass when they are validated in order from the processor's first
  -- state on.
  pub app_start_delivers :
      (throws : LogCall → Bool) (default_log_path : Bytes) (read_file : Bytes → Option Bytes)
      (parse : Bytes → Option J) (make_address : Bytes → Option Address) (host : Host)
      (loginer : Loginer) (container : ContractContainer) (manager : MarketManager)
      (a : Application W Q) (w : World W Q) (i : ℕ) (p : UnitProcessor W) (q : Q)
      → app_start throws default_log_path read_file parse make_address host loginer container
          manager
        ≡ some a
      → Reach W serialize send_to a.system.dispatcher (begun a.system) w
      → get_elem? a.system.processors i ≡ some p
      → get_elem? w.queues (i % length a.system.queues) ≡ some q
      → (ticks_of i w.entered ≡ ticks_of i (taken w.turns) ++ ticks_of i (laws.contents q))
        × ((r : Replayed W) × (validate_all (ticks_of i (taken w.turns)) p ≡ some r)
            × (sent_of i w.turns ≡ messages_of serialize send_to p r.0))
  app_start_delivers throws default_log_path read_file parse make_address host loginer container
        manager a w i p q e run first held =
      let (_, _, _, _, _, s) =
        app_start-IsStarted laws throws default_log_path read_file parse make_address host loginer
          container manager a e in
      let fresh = IsStarted-IsFresh laws serialize send_to s in
      let held' : get_elem? w.queues (i % s.n) ≡ some q = rw (sym s.confined.0) held in
      let (r, replay, sent, _) =
        delivery_sends laws serialize send_to s.ready s.positive (begun a.system) w fresh s.all run
          i p first in
      (
        delivery_in_order laws serialize send_to s.ready s.positive (begun a.system) w fresh s.all
            run i q held',
        (r, replay, sent),
      )
