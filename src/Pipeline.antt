-- ===== src/Pipeline.antt =====
-- The market's thread and the handlers' threads at work on the started system: Dispatcher.h's dispatch
-- feeds the queues, and each round of TickHandler.cpp's processLoop takes a tick from one of them.
pub mod Select
pub mod Offer
pub mod Order
pub mod Sent
pub mod Flow
pub mod Feed
pub mod Capacity
pub mod Delivery
pub mod Genuine
use ultra_mds.Base.{ℕ, ◌≡◌, Bool, Option, none, some, List, [], ◌∷◌, ◌++◌, get_elem?, set}
use ultra_mds.Base.Int.{ℤ}
use ultra_mds.Base.Bytes.{Bytes, c_string}
use ultra_mds.Double.{Double}
use ultra_mds.Ctp.{DepthMarketData}
use ultra_mds.Tick.{TickData, TickDataMes, make_tick, instrument_id_size}
use ultra_mds.Config.{Endpoint}
use ultra_mds.Queue.{SpscQueue}
use ultra_mds.Processor.{UnitProcessor}
use ultra_mds.Dispatcher.{DispatchUnit, Dispatcher, DispatchMessage, find, dispatch}
use ultra_mds.Handler.{SendEvent, process_turn}

-- The shared state, and its history: the ticks that the queues took, and the ticks that the handlers
-- took from them, each with what was sent for it.
pub record World (W Q : Type 0) : Type 0 where
  pub queues : List Q
  pub processors : List (UnitProcessor W)
  pub entered : List (TickData W)
  pub turns : List (TickData W × List SendEvent)

module _ {W : Type 0} where
  -- The tick that a dispatch adds to a queue: none if the contract is not listed, or the queue is full.
  abbrev pub entering_as :
      DepthMarketData W
      → ℤ
      → Dispatcher
      → Option DispatchUnit
      → List DispatchMessage
      → List (TickData W)
  entering_as data' now d none messages = []
  entering_as data' now d (some unit) [] =
      make_tick data' (get_elem? d.unit_processors unit.index_unit_processor) now ∷ []
  entering_as data' now d (some unit) (_ ∷ _) = []

  unfoldable pub entering :
      DepthMarketData W → ℤ → Dispatcher → List DispatchMessage → List (TickData W)
  entering data' now d messages =
      entering_as data' now d (find (c_string instrument_id_size data'.instrument_id) d.mapping)
        messages

-- A step: a dispatch, or a round of the handler of the k-th queue, which holds a tick.
pub data Move (W : Type 0) {Q : Type 0} ⦃double : Double W⦄ ⦃qs : SpscQueue (TickData W) Q⦄
    (serialize : TickDataMes W → Option Bytes) (send_to : ℤ → Endpoint → Bytes → Bool)
    (d : Dispatcher) : World W Q → World W Q → Type 0 where
  fed :
      {w : World W Q} (data' : DepthMarketData W) (now : ℤ) (queues' : List Q)
      (messages : List DispatchMessage)
      → dispatch data' now d w.queues ≡ some (queues', messages)
      → Move W serialize send_to d w
          (record w { queues = queues'; entered = w.entered ++ entering data' now d messages })
  handled :
      {w : World W Q} (k : ℕ) (q q' : Q) (t : TickData W) (processors' : List (UnitProcessor W))
      (events : List SendEvent)
      → get_elem? w.queues k ≡ some q
      → qs.front q ≡ some t
      → process_turn serialize send_to q w.processors ≡ some (q', processors', events)
      → Move W serialize send_to d w (record w {
        queues = set w.queues k q';
        processors = processors';
        turns = w.turns ++ (t, events) ∷ [];
      })

pub data Reach (W : Type 0) {Q : Type 0} ⦃double : Double W⦄ ⦃qs : SpscQueue (TickData W) Q⦄
    (serialize : TickDataMes W → Option Bytes) (send_to : ℤ → Endpoint → Bytes → Bool)
    (d : Dispatcher) (start : World W Q) : World W Q → Type 0 where
  here : Reach W serialize send_to d start start
  next :
      {v w : World W Q}
      → Reach W serialize send_to d start v
      → Move W serialize send_to d v w
      → Reach W serialize send_to d start w
