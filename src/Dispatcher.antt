-- ===== src/Dispatcher.antt =====
-- CtpRelated/Contract/Dispatcher.h: which queue and which processor a contract's ticks go to. The
-- `unordered_map` is an association list; a pointer to a queue or to a processor is its index in its
-- owner's vector. `none` is a remainder by 0 or a read outside an array.
pub mod Mapping
pub mod Route
pub mod Confined
use ultra_mds.Base.{
  ℕ, zero, suc, ◌+◌, ◌%◌, Bool, true, false, Option, none, some, List, [], ◌∷◌, ◌++◌, ◌==◌, ◌>>=◌,
  if◌then◌else◌, ltb, length, get_elem?, set, map,
}
use ultra_mds.Base.Int.{ℤ}
use ultra_mds.Base.Bytes.{Bytes, same, c_string}
use ultra_mds.Ctp.{DepthMarketData}
use ultra_mds.Tick.{TickData, make_tick, instrument_id_size}
use ultra_mds.Queue.{SpscQueue}

pub record DispatchUnit : Type 0 where
  pub index_contract : ℕ
  pub index_unit_processor : ℕ

pub record Dispatcher : Type 0 where
  pub contracts : List ℕ
  pub unit_processors : List ℕ
  pub mapping : List (Bytes × DispatchUnit)

abbrev pub no_dispatcher : Dispatcher
no_dispatcher = record { contracts = []; unit_processors = []; mapping = [] }

abbrev pub is_some : {A : Type 0} → Option A → Bool
is_some none = false
is_some (some _) = true

-- `std::unordered_map::find` and `emplace`, which leaves a key that is there as it is.
unfoldable pub find : Bytes → List (Bytes × DispatchUnit) → Option DispatchUnit
find key [] = none
find key ((name, unit) ∷ entries) =
    let rest = find key entries in if same key name then some unit else rest

unfoldable pub emplace :
    Bytes → DispatchUnit → List (Bytes × DispatchUnit) → List (Bytes × DispatchUnit)
emplace key unit entries = if is_some (find key entries) then entries else (key, unit) ∷ entries

-- The loop, over the processors' names, with the number n of queues.
unfoldable pub assign :
    ℕ → List Bytes → ℕ → ℕ → List (Bytes × DispatchUnit) → Option (List (Bytes × DispatchUnit))
assign n [] i thread_idx entries = some entries
assign n (name ∷ names) i thread_idx entries =
    let unit : DispatchUnit = record { index_contract = thread_idx; index_unit_processor = i } in
    let rest = assign n names (i + 1) ((thread_idx + 1) % n) (emplace name unit entries) in
    if n == 0 then none else rest

-- `name_of` is `getContractName` of the processor behind a pointer.
unfoldable pub init_dispatcher : (ℕ → Bytes) → List ℕ → List ℕ → Dispatcher → Option Dispatcher
init_dispatcher name_of tick_queues processors instance' =
    assign (length tick_queues) (map name_of processors) 0 0 instance'.mapping >>= λ entries.
    some (record { contracts = tick_queues; unit_processors = processors; mapping = entries })

pub data DispatchMessage : Type 0 where
  dropped : DispatchMessage

module _ {W Q : Type 0} ⦃qs : SpscQueue (TickData W) Q⦄ where
  -- The queues, by pointer, after the call, and its log lines.
  abbrev pub offer_at : TickData W → ℕ → List Q → Q → List Q × List DispatchMessage
  offer_at tick pointer queues q =
      let (taken, q') = qs.try_emplace tick q in
      (set queues pointer q', if taken then [] else dropped ∷ [])

  -- The body of the `if`, for the entry that was found.
  abbrev route :
      DepthMarketData W
      → ℤ
      → Dispatcher
      → List Q
      → Option DispatchUnit
      → Option (List Q × List DispatchMessage)
  route data' now instance' queues none = some (queues, [])
  route data' now instance' queues (some unit) =
      get_elem? instance'.contracts unit.index_contract >>= λ pointer.
      get_elem? instance'.unit_processors unit.index_unit_processor >>= λ detector.
      get_elem? queues pointer >>= λ q.
      some (offer_at (make_tick data' (some detector) now) pointer queues q)

  -- `string_view(data.InstrumentID)` reads up to the NUL, which must stand in the array.
  unfoldable pub dispatch :
      DepthMarketData W → ℤ → Dispatcher → List Q → Option (List Q × List DispatchMessage)
  dispatch data' now instance' queues =
      let key = c_string instrument_id_size data'.instrument_id in
      if ltb (length key) instrument_id_size
      then route data' now instance' queues (find key instance'.mapping)
      else none
