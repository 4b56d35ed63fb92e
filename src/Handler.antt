-- ===== src/Handler.antt =====
-- DataHandler/TickHandler.cpp: what a handler's thread does with the ticks of its queue. The serialiser and
-- the socket are parameters; a processor behind a pointer is in its owner's vector. `none` is a
-- dereferenced null pointer or a read outside the vector.
pub mod Round
pub mod Turn
pub mod Lifecycle
use ultra_mds.Base.{
  ℕ, Bool, true, false, not, Option, none, some, List, [], ◌∷◌, ◌>>=◌, if◌then◌else◌, get_elem?,
  set,
}
use ultra_mds.Base.Int.{ℤ}
use ultra_mds.Base.Bytes.{Bytes}
use ultra_mds.Double.{Double}
use ultra_mds.Tick.{TickData, TickDataMes, fill_proto_data}
use ultra_mds.Tick.Message.{empty_message}
use ultra_mds.Config.{Endpoint}
use ultra_mds.Queue.{SpscQueue}
use ultra_mds.Processor.{UnitProcessor}
use ultra_mds.Processor.Validate.{validate, get_multicast_endpoint}

-- A sent datagram, or the log line of a failure.
pub data SendEvent : Type 0 where
  sent : Endpoint → Bytes → SendEvent
  serialize_failed send_failed : SendEvent

-- What the set-up of the socket does, up to its log line.
pub data SocketEvent : Type 0 where
  socket_opened address_reused socket_ready socket_failed : SocketEvent

-- `initUdpMulticast`, where the arguments are whether `open` and `set_option` succeed; the result is false
-- when it throws.
unfoldable pub init_udp_multicast : Bool → Bool → Bool × List SocketEvent
init_udp_multicast opens sets =
    if not opens
    then (false, socket_failed ∷ [])
    else if not sets
    then (false, socket_opened ∷ socket_failed ∷ [])
    else (true, socket_opened ∷ address_reused ∷ socket_ready ∷ [])

module _ {W : Type 0} ⦃d : Double W⦄ (serialize : TickDataMes W → Option Bytes)
    (send_to : ℤ → Endpoint → Bytes → Bool) where
  -- What the socket's `send_to` does may differ for the same datagram, by the tick's time of arrival.
  abbrev pub transmit : ℤ → Endpoint → Option Bytes → List SendEvent
  transmit received endpoint none = serialize_failed ∷ []
  transmit received endpoint (some text) =
      if send_to received endpoint text then sent endpoint text ∷ [] else send_failed ∷ []

  -- The message starts with its fields' defaults; an exception of the socket is caught.
  unfoldable pub send_message : TickData W → UnitProcessor W → List SendEvent
  send_message tick p =
      transmit tick.local_receive_time (get_multicast_endpoint p)
        (serialize (fill_proto_data tick (empty_message d.nought)))

  -- The processors after the call, and what is sent.
  unfoldable pub handle_tick :
      TickData W → List (UnitProcessor W) → Option (List (UnitProcessor W) × List SendEvent)
  handle_tick tick processors = tick.detector >>= λ i. get_elem? processors i >>= λ p.
      validate tick p >>= λ o.
      some (set processors i o.processor, if o.passed then send_message tick o.processor else [])

  module _ {Q : Type 0} ⦃qs : SpscQueue (TickData W) Q⦄ where
    -- The body of the loop, for the front of the queue: a pause, or a tick to handle and to pop.
    abbrev pub turn_on :
        Q
        → List (UnitProcessor W)
        → Option (TickData W)
        → Option (Q × List (UnitProcessor W) × List SendEvent)
    turn_on q processors none = some (q, processors, [])
    turn_on q processors (some tick) = handle_tick tick processors >>= λ (processors', events).
        some (qs.pop q, processors', events)

    -- One round of the loop.
    unfoldable pub process_turn :
        Q → List (UnitProcessor W) → Option (Q × List (UnitProcessor W) × List SendEvent)
    process_turn q processors = turn_on q processors (qs.front q)
