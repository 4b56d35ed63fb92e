-- ===== src/Pipeline/Offer.antt =====
-- What a dispatch changes, and the tick that it adds.
use mathlib.Core.Option.{some-injective}
use ultra_mds.Base.{
  ℕ, ◌%◌, ◌<◌, ◌≡◌, ◌⊎◌, inl, inr, refl, sym, ap, ◌∙◌, Bool, true, false, none, some, List, [], ◌∷◌,
  if◌then◌else◌, length, get_elem?, set,
}
use ultra_mds.Base.Int.{ℤ}
use ultra_mds.Base.Bytes.{Bytes, c_string}
use ultra_mds.Ctp.{DepthMarketData}
use ultra_mds.Tick.{TickData, make_tick, instrument_id_size}
use ultra_mds.Queue.{SpscQueue}
use ultra_mds.Dispatcher.{Dispatcher, DispatchMessage, dropped, dispatch, offer_at}
use ultra_mds.Dispatcher.Mapping.{first_index, unit_of}
use ultra_mds.Dispatcher.Route.{
  IsReady, get_elem?-indices, first_index_bound, dispatch_fits, dispatch-routes,
}
use ultra_mds.Pipeline.{entering, entering_as}

abbrev pub key_of : {W : Type 0} → DepthMarketData W → Bytes
key_of data' = c_string instrument_id_size data'.instrument_id

module _ {W : Type 0} {names : List Bytes} {n : ℕ} {d : Dispatcher} (ready : IsReady names n d)
    (data' : DepthMarketData W) (now : ℤ) where
  entering-unlisted :
      (messages : List DispatchMessage)
      → first_index (key_of data') names ≡ none
      → entering data' now d messages ≡ []
  unfolding entering
  entering-unlisted messages h =
      ap (λ o. entering_as data' now d o messages)
        (ready.mapping_lem (key_of data') ∙ ap (unit_of n) h)

  entering-listed :
      (i : ℕ) (b : Bool)
      → first_index (key_of data') names ≡ some i
      → entering data' now d (if b then [] else dropped ∷ [])
        ≡ (if b then make_tick data' (some i) now ∷ [] else [])
  unfolding entering
  entering-listed i b h =
      ap (λ o. entering_as data' now d o (if b then [] else dropped ∷ []))
        (ready.mapping_lem (key_of data') ∙ ap (unit_of n) h)
      ∙ when b
    where
      detector : get_elem? d.unit_processors i ≡ some i
      detector =
          rw ready.unit_processors_lem
            (get_elem?-indices (length names) i (first_index_bound (key_of data') names i h))

      when :
          (c : Bool)
          → entering_as data' now d
              (some (record { index_contract = i % n; index_unit_processor = i }))
              (if c then [] else dropped ∷ [])
            ≡ (if c then make_tick data' (some i) now ∷ [] else [])
      when true = ap (λ o. make_tick data' o now ∷ []) detector
      when false = refl

module _ {W Q : Type 0} ⦃qs : SpscQueue (TickData W) Q⦄ {names : List Bytes} {n : ℕ}
    {d : Dispatcher} (ready : IsReady names n d) (data' : DepthMarketData W) (now : ℤ) where
  -- Nothing changes, or a tick is offered to the queue of its processor.
  abbrev pub Unchanged : List Q → List Q → List DispatchMessage → Type 0
  Unchanged queues queues' messages = (queues' ≡ queues) × (entering data' now d messages ≡ [])

  pub record Offered (queues queues' : List Q) (messages : List DispatchMessage) : Type 0 where
    pub index : ℕ
    pub queue : Q
    pub tick : TickData W
    pub index_lt : index < length names
    pub detector_lem : tick.detector ≡ some index
    pub queue_lem : get_elem? queues (index % n) ≡ some queue
    pub queues_lem : queues' ≡ set queues (index % n) (qs.try_emplace tick queue).1
    pub entering_lem :
        entering data' now d messages ≡ (if (qs.try_emplace tick queue).0 then tick ∷ [] else [])

  pub dispatch_cases :
      (queues queues' : List Q) (messages : List DispatchMessage)
      → length queues ≡ n
      → 0 < n
      → dispatch data' now d queues ≡ some (queues', messages)
      → Unchanged queues queues' messages ⊎ Offered queues queues' messages
  dispatch_cases queues queues' messages size h0 e =
      elim (dispatch-routes ready data' now queues (dispatch_fits data' now d queues e) size h0) [
        | inl (h, run) ↦
            let same : (queues', messages) ≡ (queues, []) = some-injective _ _ (sym e ∙ run) in
            inl (
              ap (λ (x : List Q × List DispatchMessage). x.0) same,
              entering-unlisted ready data' now messages h,
            )
        | inr (i, q, h, held, run) ↦
            let t = make_tick data' (some i) now in
            let same : (queues', messages) ≡ offer_at t (i % n) queues q =
              some-injective _ _ (sym e ∙ run) in
            inr (record {
              index = i;
              queue = q;
              tick = t;
              index_lt = first_index_bound (key_of data') names i h;
              detector_lem = unfold make_tick in refl;
              queue_lem = held;
              queues_lem = ap (λ (x : List Q × List DispatchMessage). x.0) same;
              entering_lem =
                  ap (entering data' now d) (ap (λ (x : List Q × List DispatchMessage). x.1) same)
                  ∙ entering-listed ready data' now i (qs.try_emplace t q).0 h;
            })
      ]
