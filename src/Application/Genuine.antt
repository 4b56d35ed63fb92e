-- ===== src/Application/Genuine.antt =====
-- Where the datagrams of the started program come from.
use ultra_mds.Base.{ℕ, ◌≡◌, refl, sym, ◌∙◌, Bool, Option, some, ◌++◌, get_elem?, All}
use ultra_mds.Base.Int.{ℤ}
use ultra_mds.Base.Bytes.{Bytes}
use ultra_mds.Double.{Double}
use ultra_mds.Json.{Json, JsonDouble}
use ultra_mds.Tick.{TickData, TickDataMes}
use ultra_mds.Queue.{SpscQueue, IsSpscQueue}
use ultra_mds.Config.{Address, Endpoint}
use ultra_mds.Logger.{LogCall}
use ultra_mds.Login.{Loginer}
use ultra_mds.Processor.{UnitProcessor}
use ultra_mds.System.{Host, ContractContainer}
use ultra_mds.Market.{MarketManager}
use ultra_mds.Pipeline.{World, Reach}
use ultra_mds.Pipeline.Select.{ticks_of, sent_of}
use ultra_mds.Pipeline.Order.{taken}
use ultra_mds.Base.{All-prefix}
use ultra_mds.Pipeline.Delivery.{taken_first}
use ultra_mds.Pipeline.Genuine.{
  HasAsciiTexts, filled, IsOf, accepted_of-IsOf, validate_all-All, IsGenuine, messages_of-IsGenuine,
}
use ultra_mds.Tick.{make_tick}
use ultra_mds.Pipeline.Feed.{Arrival}
use mathlib.Core.Path.{subst}
use ultra_mds.Pipeline.Feed.{feed_of, entered-accepted}
use ultra_mds.Pipeline.Delivery.{delivery_sends}
use ultra_mds.Application.{Application, app_start}
use ultra_mds.Application.Start.{app_start-IsStarted}
use ultra_mds.Application.Delivery.{begun, IsStarted-IsFresh}

module _ {W J Q : Type 0} ⦃dw : Double W⦄ ⦃js : Json J⦄ ⦃jd : JsonDouble W J⦄
    ⦃qs : SpscQueue (TickData W) Q⦄ (laws : IsSpscQueue (TickData W) Q)
    (serialize : TickDataMes W → Option Bytes) (send_to : ℤ → Endpoint → Bytes → Bool)
    (throws : LogCall → Bool) (default_log_path : Bytes) (read_file : Bytes → Option Bytes)
    (parse : Bytes → Option J) (make_address : Bytes → Option Address) (host : Host)
    (loginer : Loginer) (container : ContractContainer) (manager : MarketManager)
    (a : Application W Q)
    (e : app_start throws default_log_path read_file parse make_address host loginer container
        manager
      ≡ some a)
    (w : World W Q) (run : Reach W serialize send_to a.system.dispatcher (begun a.system) w) where
  -- In every run of the started program, what is sent for the i-th contract is genuine: each datagram goes
  -- to the group of the contract's rules, and what a subscriber reads off it is the message of a record of
  -- the feed whose contract is the i-th and which was not dropped. The serialiser's inverse reads back what
  -- it has written, and the texts of the records are ASCII.
  pub app_start-IsGenuine :
      (parse_message : Bytes → Option (TickDataMes W)) (i : ℕ) (p : UnitProcessor W)
      → get_elem? a.system.processors i ≡ some p
      → ((m : TickDataMes W) (text : Bytes)
          → HasAsciiTexts m
          → serialize m ≡ some text
          → parse_message text ≡ some m)
      → All (λ (x : Arrival W). HasAsciiTexts (filled (make_tick x.0 (some i) x.1))) (feed_of run)
      → All (IsGenuine parse_message a.container.contracts i p (feed_of run)) (sent_of i w.turns)
  app_start-IsGenuine parse_message i p first decodes ascii =
      let s =
        (app_start-IsStarted laws throws default_log_path read_file parse make_address host loginer
          container manager a e).5 in
      let fresh = IsStarted-IsFresh laws serialize send_to s in
      let names = a.container.contracts in
      let feed = feed_of run in
      let (r, replay, sent, _) =
        delivery_sends laws serialize send_to s.ready s.positive (begun a.system) w fresh s.all run
          i p first in
      let (rest, order) =
        taken_first laws serialize send_to s.ready s.positive (begun a.system) w fresh s.all run
          i in
      let of_feed : All (IsOf names i feed) (ticks_of i (taken w.turns) ++ rest) =
        subst (All (IsOf names i feed)) (sym (entered-accepted s.ready refl run i) ∙ order)
          (accepted_of-IsOf names i feed) in
      let kept =
        validate_all-All (IsOf names i feed) (ticks_of i (taken w.turns)) p r replay
          (All-prefix (IsOf names i feed) (ticks_of i (taken w.turns)) rest of_feed) in
      subst (All (IsGenuine parse_message names i p feed)) (sym sent) (
        messages_of-IsGenuine parse_message names i p feed serialize send_to decodes ascii r.0 kept)
