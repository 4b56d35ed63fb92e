-- ===== src/Pipeline/Feed.antt =====
-- The records of the feed in a run, and which of them become the ticks of a processor.
use ultra_mds.Base.{
  ℕ, ◌≡◌, inl, inr, refl, sym, ap, ◌∙◌, Bool, false, Option, none, some, List, [], ◌∷◌, ◌++◌,
  if◌then◌else◌, length, Bool-cases, arith,
}
use ultra_mds.Base.Int.{ℤ}
use ultra_mds.Base.Bytes.{Bytes}
use ultra_mds.Double.{Double}
use ultra_mds.Ctp.{DepthMarketData}
use ultra_mds.Tick.{TickData, TickDataMes, make_tick}
use ultra_mds.Config.{Endpoint}
use ultra_mds.Queue.{SpscQueue}
use ultra_mds.Dispatcher.{Dispatcher, DispatchMessage}
use ultra_mds.Dispatcher.Mapping.{first_index, unit_of}
use ultra_mds.Dispatcher.Route.{IsReady, get_elem?-indices, first_index_bound}
use ultra_mds.Pipeline.{World, fed, handled, Reach, here, next, entering, entering_as}
use ultra_mds.Pipeline.Select.{is_index, ticks_of, ticks_of-append}
use ultra_mds.Pipeline.Offer.{key_of}

-- A record, with the time of its arrival and the log lines of its dispatch.
abbrev pub Arrival : Type 0 → Type 0
Arrival W = DepthMarketData W × ℤ × List DispatchMessage

module _ {W Q : Type 0} ⦃double : Double W⦄ ⦃qs : SpscQueue (TickData W) Q⦄
    {serialize : TickDataMes W → Option Bytes} {send_to : ℤ → Endpoint → Bytes → Bool}
    {d : Dispatcher} {start : World W Q} where
  -- The records that a run dispatches, in order.
  unfoldable pub feed_of : {w : World W Q} → Reach W serialize send_to d start w → List (Arrival W)
  feed_of here = []
  feed_of (next run (fed data' now queues' messages e)) = feed_of run ++ (data', now, messages) ∷ []
  feed_of (next run (handled k q q' t processors' events held first e)) = feed_of run

-- Whether a record at the index o among the contracts becomes a tick of the i-th: its queue has not
-- refused it.
abbrev pub admits : ℕ → Option ℕ → List DispatchMessage → Bool
admits i o [] = is_index i o
admits i o (_ ∷ _) = false

module _ {W : Type 0} (names : List Bytes) (i : ℕ) where
  -- The ticks of the records that are of the i-th contract and are not dropped.
  unfoldable pub accepted_of : List (Arrival W) → List (TickData W)
  accepted_of [] = []
  accepted_of ((data', now, messages) ∷ feed) =
      let rest = accepted_of feed in
      if admits i (first_index (key_of data') names) messages
      then make_tick data' (some i) now ∷ rest
      else rest

  pub accepted_of-append :
      (feed more : List (Arrival W))
      → accepted_of (feed ++ more) ≡ accepted_of feed ++ accepted_of more
  unfolding accepted_of
  accepted_of-append [] more = refl
  accepted_of-append ((data', now, messages) ∷ feed) more =
      elim (Bool-cases (admits i (first_index (key_of data') names) messages)) [
        | inl e ↦
            rw e (ap (λ rest. make_tick data' (some i) now ∷ rest) (accepted_of-append feed more))
        | inr e ↦ rw e (accepted_of-append feed more)
      ]

module _ {W : Type 0} {names : List Bytes} {n : ℕ} {d : Dispatcher} (ready : IsReady names n d)
    (data' : DepthMarketData W) (now : ℤ) where
  -- What a dispatch adds to the history, by the contract's index.
  abbrev admitted : Option ℕ → List DispatchMessage → List (TickData W)
  admitted none messages = []
  admitted (some i) [] = make_tick data' (some i) now ∷ []
  admitted (some i) (_ ∷ _) = []

  entering_as-admitted :
      (o : Option ℕ) (messages : List DispatchMessage)
      → first_index (key_of data') names ≡ o
      → entering_as data' now d (unit_of n o) messages ≡ admitted o messages
  entering_as-admitted none messages h = refl
  entering_as-admitted (some i) [] h =
      ap (λ o. make_tick data' o now ∷ [])
        (rw ready.unit_processors_lem
          (get_elem?-indices (length names) i (first_index_bound (key_of data') names i h)))
  entering_as-admitted (some i) (m ∷ ms) h = refl

  entering-admitted :
      (messages : List DispatchMessage)
      → entering data' now d messages ≡ admitted (first_index (key_of data') names) messages
  unfolding entering
  entering-admitted messages =
      ap (λ o. entering_as data' now d o messages) (ready.mapping_lem (key_of data'))
      ∙ entering_as-admitted (first_index (key_of data') names) messages refl

  ticks_of-admitted :
      (i : ℕ) (o : Option ℕ) (messages : List DispatchMessage)
      → ticks_of i (admitted o messages)
        ≡ (if admits i o messages then make_tick data' (some i) now ∷ [] else [])
  unfolding ticks_of make_tick
  ticks_of-admitted i none [] = refl
  ticks_of-admitted i none (m ∷ ms) = refl
  ticks_of-admitted i (some j) [] = ground arith
  ticks_of-admitted i (some j) (m ∷ ms) = refl

  ticks_of-entering :
      (i : ℕ) (messages : List DispatchMessage)
      → ticks_of i (entering data' now d messages)
        ≡ accepted_of names i ((data', now, messages) ∷ [])
  ticks_of-entering i messages =
      ap (ticks_of i) (entering-admitted messages)
      ∙ ticks_of-admitted i (first_index (key_of data') names) messages
      ∙ unfold accepted_of in refl

module _ {W Q : Type 0} ⦃double : Double W⦄ ⦃qs : SpscQueue (TickData W) Q⦄
    {serialize : TickDataMes W → Option Bytes} {send_to : ℤ → Endpoint → Bytes → Bool}
    {names : List Bytes} {n : ℕ} {d : Dispatcher} (ready : IsReady names n d) {start : World W Q}
    (empty : start.entered ≡ []) where
  -- In every run the ticks that entered for a processor are the records of its contract that were not
  -- dropped, in the order of their arrival.
  pub entered-accepted :
      {w : World W Q} (run : Reach W serialize send_to d start w) (i : ℕ)
      → ticks_of i w.entered ≡ accepted_of names i (feed_of run)
  unfolding feed_of
  entered-accepted here i = rw empty (unfold ticks_of accepted_of in refl)
  entered-accepted (next run (fed {w = w} data' now queues' messages e)) i =
      ticks_of-append i w.entered (entering data' now d messages)
      ∙ ap (λ ts. ts ++ ticks_of i (entering data' now d messages)) (entered-accepted run i)
      ∙ ap (λ ts. accepted_of names i (feed_of run) ++ ts)
          (ticks_of-entering ready data' now i messages)
      ∙ sym (accepted_of-append names i (feed_of run) ((data', now, messages) ∷ []))
  entered-accepted (next run (handled k q q' t processors' events held first e)) i =
      entered-accepted run i
