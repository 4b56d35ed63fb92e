-- ===== src/Application/Forward.antt =====
-- What the started program makes of the records that the exchange sends.
use ultra_mds.Base.{
  ℕ, ◌%◌, ◌<◌, ◌≤◌, ◌≡◌, ◌≢◌, ◌↔◌, refl, sym, ap, ◌∙◌, Bool, Option, some, List, [], ◌++◌, length,
  get_elem?, All, All-held,
}
use ultra_mds.Base.Int.{ℤ}
use ultra_mds.Base.Bytes.{Bytes}
use ultra_mds.Double.{Double}
use ultra_mds.Json.{Json, JsonDouble}
use ultra_mds.Ctp.{DepthMarketData}
use ultra_mds.Tick.{TickData, TickDataMes, instrument_id_size}
use ultra_mds.Queue.{SpscQueue, IsSpscQueue}
use ultra_mds.Config.{Address, Endpoint}
use ultra_mds.Logger.{LogCall}
use ultra_mds.Login.{Loginer}
use ultra_mds.Processor.{UnitProcessor}
use ultra_mds.Processor.Validate.History.{validate_all}
use ultra_mds.Processor.Validate.Replay.{Replayed}
use ultra_mds.Dispatcher.{DispatchMessage, dispatch}
use ultra_mds.System.{Host, ContractContainer, queue_size_of}
use ultra_mds.Market.{MarketManager}
use ultra_mds.Pipeline.{World, Reach}
use ultra_mds.Pipeline.Select.{ticks_of, sent_of, append_nil}
use ultra_mds.Pipeline.Order.{taken}
use ultra_mds.Pipeline.Offer.{key_of}
use ultra_mds.Pipeline.Sent.{messages_of}
use ultra_mds.Pipeline.Feed.{feed_of, accepted_of, entered-accepted}
use ultra_mds.Pipeline.Capacity.{IsFull, Reach-IsBounded, dispatch_drops}
use ultra_mds.Pipeline.Delivery.{
  delivery_in_order, delivery_sends, delivery_completes, Reach-step_first,
}
use ultra_mds.Application.{Application, app_start}
use ultra_mds.Application.Start.{IsStarted, IsStarted-IsBounded, app_start-IsStarted}
use ultra_mds.Application.Delivery.{begun, IsStarted-IsFresh}

module _ {W J Q : Type 0} ⦃dw : Double W⦄ ⦃js : Json J⦄ ⦃jd : JsonDouble W J⦄
    ⦃qs : SpscQueue (TickData W) Q⦄ (laws : IsSpscQueue (TickData W) Q)
    (serialize : TickDataMes W → Option Bytes) (send_to : ℤ → Endpoint → Bytes → Bool)
    (throws : LogCall → Bool) (default_log_path : Bytes) (read_file : Bytes → Option Bytes)
    (parse : Bytes → Option J) (make_address : Bytes → Option Address) (host : Host)
    (loginer : Loginer) (container : ContractContainer) (manager : MarketManager)
    (a : Application W Q)
    (e : app_start throws default_log_path read_file parse make_address host loginer container
        manager
      ≡ some a)
    (w : World W Q) (run : Reach W serialize send_to a.system.dispatcher (begun a.system) w) where
  begun-IsStarted : IsStarted laws a.container a.system
  begun-IsStarted =
      (app_start-IsStarted laws throws default_log_path read_file parse make_address host loginer
        container manager a e).5

  -- After a run of the started program, when the handler of the i-th contract has caught up, what has been
  -- sent for the contract are, in their order, the messages of those of its records that were not dropped
  -- and that pass when they are validated one after the other, from the processor's first state on.
  pub app_start_forwards :
      (i : ℕ) (p : UnitProcessor W) (q : Q)
      → get_elem? a.system.processors i ≡ some p
      → get_elem? w.queues (i % length a.system.queues) ≡ some q
      → laws.contents q ≡ []
      → (r : Replayed W) × (validate_all (accepted_of a.container.contracts i (feed_of run)) p
          ≡ some r)
        × (sent_of i w.turns ≡ messages_of serialize send_to p r.0)
  app_start_forwards i p q first held caught_up =
      let s = begun-IsStarted in
      let fresh = IsStarted-IsFresh laws serialize send_to s in
      let held' : get_elem? w.queues (i % s.n) ≡ some q = rw (sym s.confined.0) held in
      let order =
        delivery_in_order laws serialize send_to s.ready s.positive (begun a.system) w fresh s.all
          run i q held' in
      let (r, replay, sent, _) =
        delivery_sends laws serialize send_to s.ready s.positive (begun a.system) w fresh s.all run
          i p first in
      let all_taken : ticks_of i (taken w.turns)
          ≡ accepted_of a.container.contracts i (feed_of run) =
        sym (
          order
          ∙ ap (λ ts. ticks_of i (taken w.turns) ++ ticks_of i ts) caught_up
          ∙ unfold ticks_of in append_nil (ticks_of i (taken w.turns)))
        ∙ entered-accepted s.ready refl run i in
      (r, ap (λ ts. validate_all ts p) (sym all_taken) ∙ replay, sent)

  -- From every state of the started program the handler of the i-th contract can go on, without a fault,
  -- until what has been sent for the contract are the messages of those of its records so far that were not
  -- dropped and that pass.
  pub app_start_completes :
      (i : ℕ) (p : UnitProcessor W)
      → get_elem? a.system.processors i ≡ some p
      → (v : World W Q) × Reach W serialize send_to a.system.dispatcher w v
        × (v.entered ≡ w.entered)
        × ((r : Replayed W) × (validate_all (accepted_of a.container.contracts i (feed_of run)) p
              ≡ some r)
            × (sent_of i v.turns ≡ messages_of serialize send_to p r.0))
  app_start_completes i p first =
      let s = begun-IsStarted in
      let fresh = IsStarted-IsFresh laws serialize send_to s in
      let (v, more, same, all_taken) =
        delivery_completes laws serialize send_to s.ready s.positive (begun a.system) w fresh s.all
          run i in
      let (r, replay, sent, _) =
        delivery_sends laws serialize send_to s.ready s.positive (begun a.system) v fresh s.all
          (Reach-step_first serialize send_to a.system.dispatcher run more) i p first in
      (
        v,
        more,
        same,
        (
          r,
          ap (λ ts. validate_all ts p) (sym (all_taken ∙ entered-accepted s.ready refl run i))
              ∙ replay,
          sent,
        ),
      )

  -- After a run of the started program a record whose id ends in its array is dispatched without a fault, and
  -- it is dropped, with a log line, exactly if its contract is listed and the contract's queue holds as many
  -- ticks as the start has made room for. No queue ever holds more.
  pub app_start_drops :
      (data' : DepthMarketData W) (now : ℤ)
      → length (key_of data') < instrument_id_size
      → let n = length a.system.queues in
        let size = queue_size_of (length a.container.contracts) n in
        All (λ q. length (laws.contents q) ≤ size) w.queues
        × ((queues' : List Q) × (messages : List DispatchMessage) × (dispatch data' now
                a.system.dispatcher w.queues
              ≡ some (queues', messages))
            × (messages ≢ [] ↔ IsFull laws n size a.container.contracts data' w.queues))
  app_start_drops data' now fits =
      let s = begun-IsStarted in
      let size = queue_size_of (length a.container.contracts) s.n in
      let bounded =
        Reach-IsBounded laws serialize send_to s.ready s.positive size (IsStarted-IsBounded laws s)
          run in
      rw s.confined.0 (
        All-held w.queues (λ k q held. (bounded.holds k q held).1),
        dispatch_drops laws s.ready s.positive size data' now w.queues fits bounded,
      )
