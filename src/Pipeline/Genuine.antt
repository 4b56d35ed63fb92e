-- ===== src/Pipeline/Genuine.antt =====
-- Where the datagrams that are sent come from.
use mathlib.Core.Path.{subst}
use mathlib.Core.Option.{some-injective}
use ultra_mds.Base.{
  ℕ, suc, ◌≡◌, inl, inr, refl, ap, ◌∙◌, Bool, true, Option, none, some, List, [], ◌∷◌, get_elem?,
  Bool-cases, >>=-eq-some, All, All-append, All-map, All-get_elem?, ◌<◌, arith,
}
use ultra_mds.Base.Int.{ℤ}
use ultra_mds.Base.Bytes.{Bytes}
use ultra_mds.Double.{Double}
use ultra_mds.Ctp.{DepthMarketData}
use ultra_mds.Tick.{TickData, TickDataMes, make_tick, fill_proto_data}
use ultra_mds.Tick.Message.{empty_message}
use ultra_mds.Config.{Endpoint}
use ultra_mds.Processor.{UnitProcessor}
use ultra_mds.Processor.Validate.{validate, get_multicast_endpoint}
use ultra_mds.Processor.Validate.History.{validate_all}
use ultra_mds.Processor.Validate.Replay.{Replayed}
use ultra_mds.Handler.{SendEvent, sent, serialize_failed, send_failed, transmit, send_message}
use ultra_mds.Dispatcher.{DispatchMessage}
use ultra_mds.Dispatcher.Mapping.{first_index}
use ultra_mds.Pipeline.Offer.{key_of}
use ultra_mds.Pipeline.Sent.{messages_of}
use ultra_mds.Pipeline.Feed.{Arrival, admits, accepted_of}

admits-own :
    (i : ℕ) (o : Option ℕ) (messages : List DispatchMessage)
    → admits i o messages ≡ true
    → (o ≡ some i) × (messages ≡ [])
admits-own i none [] e = absurd (cc e)
admits-own i (some j) [] e = (ap some (ground arith), refl)
admits-own i o (m ∷ ms) e = absurd (cc e)

module _ {W : Type 0} (names : List Bytes) (i : ℕ) where
  -- A record of the feed for the i-th contract that was not dropped.
  abbrev pub IsArrival : List (Arrival W) → DepthMarketData W → ℤ → Type 0
  IsArrival feed data' now =
      (k : ℕ) × (get_elem? feed k ≡ some (data', now, []))
      × (first_index (key_of data') names ≡ some i)

  abbrev pub IsOf : List (Arrival W) → TickData W → Type 0
  IsOf feed t =
      (data' : DepthMarketData W) × (now : ℤ) × IsArrival feed data' now
      × (make_tick data' (some i) now ≡ t)

  IsOf-later :
      (x : Arrival W) (feed : List (Arrival W)) (t : TickData W) → IsOf feed t → IsOf (x ∷ feed) t
  IsOf-later x feed t (data', now, (k, held, own), made) = (data', now, (suc k, held, own), made)

  pub accepted_of-IsOf : (feed : List (Arrival W)) → All (IsOf feed) (accepted_of names i feed)
  unfolding accepted_of
  accepted_of-IsOf [] = tt
  accepted_of-IsOf ((data', now, messages) ∷ feed) =
      let others =
        All-map (accepted_of names i feed) (IsOf-later (data', now, messages) feed)
          (accepted_of-IsOf feed) in
      elim (Bool-cases (admits i (first_index (key_of data') names) messages)) [
        | inl e ↦
            let (own, none_dropped) = admits-own i (first_index (key_of data') names) messages e in
            rw e
              ((data', now, (0, ap (λ ms. some (data', now, ms)) none_dropped, own), refl), others)
        | inr e ↦ rw e others
      ]

module _ {W : Type 0} ⦃d : Double W⦄ (P : TickData W → Type 0) where
  -- Those that pass are some of the ticks.
  pub validate_all-All :
      (ts : List (TickData W)) (p : UnitProcessor W) (r : Replayed W)
      → validate_all ts p ≡ some r
      → All P ts
      → All P r.0
  unfolding validate_all
  validate_all-All [] p r e _ = subst (λ (x : Replayed W). All P x.0) (some-injective _ _ e) tt
  validate_all-All (t ∷ ts) p r e (own, others) =
      let (o, _, e₁) = >>=-eq-some (validate t p) _ e in
      let (s, run, e₂) = >>=-eq-some (validate_all ts o.processor) _ e₁ in
      let rest = validate_all-All ts o.processor s run others in
      subst (λ (x : Replayed W). All P x.0) (some-injective _ _ e₂)
        (elim (Bool-cases o.passed) [
          | inl passed ↦ rw passed (own, rest)
          | inr failed ↦ rw failed rest
        ])

-- What protobuf asks of the text fields of a proto3 message, of which ASCII is a part.
pub record HasAsciiTexts {W : Type 0} (m : TickDataMes W) : Type 0 where
  pub instrument_id_lt : All (λ c. c < 128) m.instrument_id
  pub exchange_id_lt : All (λ c. c < 128) m.exchange_id
  pub update_time_lt : All (λ c. c < 128) m.update_time
  pub action_day_lt : All (λ c. c < 128) m.action_day
  pub trading_day_lt : All (λ c. c < 128) m.trading_day

module _ {W : Type 0} ⦃d : Double W⦄ where
  -- The message of a tick.
  abbrev pub filled : TickData W → TickDataMes W
  filled t = fill_proto_data t (empty_message d.nought)

module _ {W : Type 0} ⦃d : Double W⦄ (parse_message : Bytes → Option (TickDataMes W))
    (names : List Bytes) (i : ℕ) (p : UnitProcessor W) (feed : List (Arrival W)) where
  -- A datagram for the i-th contract: it goes to the contract's group, and what a subscriber reads off it
  -- is the message of a record of the contract.
  abbrev pub IsGenuine : SendEvent → Type 0
  IsGenuine serialize_failed = Unit
  IsGenuine send_failed = Unit
  IsGenuine (sent endpoint text) =
      (endpoint ≡ get_multicast_endpoint p)
      × ((data' : DepthMarketData W) × (now : ℤ) × IsArrival names i feed data' now
          × (parse_message text ≡ some (filled (make_tick data' (some i) now))))

  module _ (serialize : TickDataMes W → Option Bytes) (send_to : ℤ → Endpoint → Bytes → Bool)
      (decodes : (m : TickDataMes W) (text : Bytes)
        → HasAsciiTexts m
        → serialize m ≡ some text
        → parse_message text ≡ some m)
      (ascii : All
        (λ (a : Arrival W). HasAsciiTexts (filled (make_tick a.0 (some i) a.1)))
        feed) where
    transmit-IsGenuine :
        (t : TickData W) (o : Option Bytes)
        → IsOf names i feed t
        → serialize (filled t) ≡ o
        → All IsGenuine
            (transmit serialize send_to t.local_receive_time (get_multicast_endpoint p) o)
    transmit-IsGenuine t none own e = (tt, tt)
    transmit-IsGenuine t (some text) (data', now, arrival, made) e =
        let texts = All-get_elem? _ feed arrival.0 (data', now, []) ascii arrival.1 in
        let read =
          decodes (filled (make_tick data' (some i) now)) text texts
            (ap (λ x. serialize (filled x)) made ∙ e) in
        elim (Bool-cases (send_to t.local_receive_time (get_multicast_endpoint p) text)) [
          | inl ok ↦ rw ok ((refl, (data', now, arrival, read)), tt)
          | inr failed ↦ rw failed (tt, tt)
        ]

    pub messages_of-IsGenuine :
        (ts : List (TickData W))
        → All (IsOf names i feed) ts
        → All IsGenuine (messages_of serialize send_to p ts)
    unfolding messages_of send_message
    messages_of-IsGenuine [] _ = tt
    messages_of-IsGenuine (t ∷ ts) (own, others) =
        All-append IsGenuine (send_message serialize send_to t p)
          (messages_of serialize send_to p ts)
          (transmit-IsGenuine t (serialize (filled t)) own refl) (messages_of-IsGenuine ts others)
