-- ===== src/Dispatcher/Route.antt =====
-- Where a dispatched tick ends up, and who reads it.
use native.Mathlib.Nat.{mod-lt}
use ultra_mds.Base.{
  ℕ, zero, suc, ◌+◌, ◌%◌, ◌<◌, ◌≡◌, ◌⊎◌, inl, inr, refl, sym, ap, ◌∙◌, true, none, some, List, [],
  ◌∷◌, ltb, length, length-map, get_elem?, map, arith, Bool-cases, Option-cases,
}
use ultra_mds.Base.Int.{ℤ}
use ultra_mds.Base.Bytes.{Bytes, c_string, same}
use ultra_mds.Ctp.{DepthMarketData}
use ultra_mds.Tick.{TickData, make_tick, instrument_id_size}
use ultra_mds.Queue.{SpscQueue}
use ultra_mds.Dispatcher.{
  DispatchMessage, Dispatcher, no_dispatcher, find, init_dispatcher, offer_at, dispatch,
}
use ultra_mds.Dispatcher.Mapping.{first_index, unit_of, init_dispatcher-find}

-- The n indices from i on.
abbrev pub indices : ℕ → ℕ → List ℕ
indices i zero = []
indices i (suc n) = i ∷ indices (suc i) n

pub length-indices : (i n : ℕ) → length (indices i n) ≡ n
length-indices i zero = refl
length-indices i (suc n) = ap suc (length-indices (suc i) n)

get_elem?-indices_from : (i n k : ℕ) → k < n → get_elem? (indices i n) k ≡ some (i + k)
get_elem?-indices_from i zero k h = absurd (omega arith)
get_elem?-indices_from i (suc n) zero h = let e : i ≡ i + 0 = omega arith in ap some e
get_elem?-indices_from i (suc n) (suc k) h =
    let e : suc i + k ≡ i + suc k = omega arith in
    get_elem?-indices_from (suc i) n k (omega arith) ∙ ap some e

pub get_elem?-indices : (n k : ℕ) → k < n → get_elem? (indices 0 n) k ≡ some k
get_elem?-indices n k h =
    let e : 0 + k ≡ k = omega arith in get_elem?-indices_from 0 n k h ∙ ap some e

pub get_elem?_total :
    {A : Type 0} (xs : List A) (k : ℕ) → k < length xs → (x : A) × (get_elem? xs k ≡ some x)
get_elem?_total [] k h = absurd (omega arith)
get_elem?_total (x ∷ xs) zero h = (x, refl)
get_elem?_total (x ∷ xs) (suc k) h = get_elem?_total xs k (omega arith)

-- The state that the start leaves: n queues, and a processor for each of the names.
pub record IsReady (names : List Bytes) (n : ℕ) (d : Dispatcher) : Type 0 where
  pub contracts_lem : d.contracts ≡ indices 0 n
  pub unit_processors_lem : d.unit_processors ≡ indices 0 (length names)
  pub mapping_lem : (key : Bytes) → find key d.mapping ≡ unit_of n (first_index key names)

pub init_dispatcher-IsReady :
    (name_of : ℕ → Bytes) (n m : ℕ)
    → 0 < n
    → (d : Dispatcher) × (init_dispatcher name_of (indices 0 n) (indices 0 m) no_dispatcher
        ≡ some d)
      × IsReady (map name_of (indices 0 m)) n d
init_dispatcher-IsReady name_of n m h =
    let positive : 0 < length (indices 0 n) = omega (arith, h, length-indices 0 n) in
    let (d, e, contracts, processors, found) =
      init_dispatcher-find name_of (indices 0 n) (indices 0 m) positive in
    (
      d,
      e,
      record {
        contracts_lem = contracts;
        unit_processors_lem =
            processors
            ∙ ap (indices 0) (sym (length-map (indices 0 m) name_of ∙ length-indices 0 m));
        mapping_lem = λ key.
            found key
            ∙ ap (λ k. unit_of k (first_index key (map name_of (indices 0 m))))
                (length-indices 0 n);
      },
    )

pub first_index_bound :
    (key : Bytes) (names : List Bytes) (i : ℕ) → first_index key names ≡ some i → i < length names
unfolding first_index
first_index_bound key [] i h = absurd (cc h)
first_index_bound key (name ∷ names) i h = elim (Bool-cases (same key name)) [
  | inl e ↦ ground arith
  | inr e ↦ elim (Option-cases (first_index key names)) [
    | inl f ↦ ground arith
    | inr (j, f) ↦ ground (arith, first_index_bound key names j f)
  ]
]

ltb-true : (a b : ℕ) → a < b → ltb a b ≡ true
ltb-true a b h = ground arith

module _ {W Q : Type 0} ⦃qs : SpscQueue (TickData W) Q⦄ {names : List Bytes} {n : ℕ}
    {d : Dispatcher} (ready : IsReady names n d) (data' : DepthMarketData W) (now : ℤ)
    (queues : List Q)
    (fits : length (c_string instrument_id_size data'.instrument_id) < instrument_id_size) where
  abbrev key : Bytes
  key = c_string instrument_id_size data'.instrument_id

  -- A tick of a contract that is not listed changes nothing.
  pub dispatch-unlisted :
      first_index key names ≡ none → dispatch data' now d queues ≡ some (queues, [])
  unfolding dispatch
  dispatch-unlisted h =
      let found : find key d.mapping ≡ none = ready.mapping_lem key ∙ ap (unit_of n) h in
      rw (ltb-true (length key) instrument_id_size fits, found) refl

  -- A tick of a listed contract is offered to the queue at the contract's index modulo n, with the
  -- contract's own processor.
  pub dispatch-listed :
      (i : ℕ) (q : Q)
      → first_index key names ≡ some i
      → get_elem? queues (i % n) ≡ some q
      → 0 < n
      → dispatch data' now d queues
        ≡ some (offer_at (make_tick data' (some i) now) (i % n) queues q)
  unfolding dispatch
  dispatch-listed i q h held h0 =
      let pointer : get_elem? d.contracts (i % n) ≡ some (i % n) =
        rw ready.contracts_lem (get_elem?-indices n (i % n) (mod-lt i h0)) in
      let detector : get_elem? d.unit_processors i ≡ some i =
        rw ready.unit_processors_lem
          (get_elem?-indices (length names) i (first_index_bound key names i h)) in
      let found : find key d.mapping
          ≡ some (record { index_contract = i % n; index_unit_processor = i }) =
        ready.mapping_lem key ∙ ap (unit_of n) h in
      rw (ltb-true (length key) instrument_id_size fits, found, pointer, detector, held) refl

  -- On n queues, at least one, and for an instrument id that ends in its array, a dispatch does not
  -- fault. A tick of a contract that is not listed changes nothing. A tick of a listed one is offered
  -- to one queue, at the contract's first index modulo n, with the processor of that index, and a
  -- queue that is full drops it with a log line.
  pub dispatch-routes :
      length queues ≡ n
      → 0 < n
      → ((first_index key names ≡ none) × (dispatch data' now d queues ≡ some (queues, [])))
        ⊎ ((i : ℕ) × (q : Q) × (first_index key names ≡ some i)
            × (get_elem? queues (i % n) ≡ some q)
            × (dispatch data' now d queues
                ≡ some (offer_at (make_tick data' (some i) now) (i % n) queues q)))
  dispatch-routes size h0 = elim (Option-cases (first_index key names)) [
    | inl h ↦ inl (h, dispatch-unlisted h)
    | inr (i, h) ↦
        let (q, held) = get_elem?_total queues (i % n) (rw size (mod-lt i h0)) in
        inr (i, q, h, held, dispatch-listed i q h held h0)
  ]

pub dispatch_fits :
    {W Q : Type 0} ⦃qs : SpscQueue (TickData W) Q⦄ (data' : DepthMarketData W) (now : ℤ)
    (d : Dispatcher) (queues : List Q) {r : List Q × List DispatchMessage}
    → dispatch data' now d queues ≡ some r
    → length (c_string instrument_id_size data'.instrument_id) < instrument_id_size
unfolding dispatch
dispatch_fits data' now d queues e = ground arith
