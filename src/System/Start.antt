-- ===== src/System/Start.antt =====
-- What the start leaves for the threads.
use mathlib.Core.Path.{subst}
use ultra_mds.Base.{
  ℕ, zero, suc, ◌<◌, ◌≡◌, inl, inr, refl, sym, ap, ◌∙◌, Option, none, some, List, [], ◌∷◌, length,
  length-map, get_elem?, map, arith, Option-cases,
}
use ultra_mds.Base.Int.{ℤ, pos, negsuc}
use ultra_mds.Base.Bytes.{Bytes}
use ultra_mds.Double.{Double}
use ultra_mds.Json.{Json, JsonDouble}
use ultra_mds.Tick.{TickData}
use ultra_mds.Queue.{SpscQueue, IsSpscQueue}
use ultra_mds.Config.{Address, SpecialConfig, ConfigMessage}
use ultra_mds.Config.Load.{from_json}
use ultra_mds.Reader.{get_contract_validation_config}
use ultra_mds.Processor.{UnitProcessor}
use ultra_mds.Processor.Validate.{get_contract_name}
use ultra_mds.Dispatcher.Route.{indices, length-indices, IsReady, init_dispatcher-IsReady}
use ultra_mds.Dispatcher.Confined.{IsConfined}
use ultra_mds.Handler.Lifecycle.{TickHandler}
use ultra_mds.System.{
  Host, start_handlers, ContractContainer, System, cpu_count_of, thread_num_of, queue_size_of,
  get_biz_core_id, name_at, make_processor, make_processors, handler_and_dispatcher_start,
}
use ultra_mds.System.Cores.{thread_num_of-bounds}

map-indices-suc :
    {A : Type 0} (f : ℕ → A) (i n : ℕ)
    → map f (indices (suc i) n) ≡ map (λ k. f (suc k)) (indices i n)
map-indices-suc f i zero = refl
map-indices-suc f i (suc n) = ap (λ rest. f (suc i) ∷ rest) (map-indices-suc f (suc i) n)

map-name_at :
    {W : Type 0} (ps : List (UnitProcessor W))
    → map (name_at ps) (indices 0 (length ps)) ≡ map get_contract_name ps
map-name_at [] = refl
map-name_at (p ∷ ps) =
    ap (λ rest. get_contract_name p ∷ rest)
      (map-indices-suc (name_at (p ∷ ps)) 0 (length ps) ∙ map-name_at ps)

abbrev or_default : {A : Type 0} → A → Option A → A
or_default default none = default
or_default default (some a) = a

pub some_injective : {A : Type 0} (a b : A) → some a ≡ some b → a ≡ b
some_injective a b e = ap (or_default a) e

module _ {W J : Type 0} ⦃d : Double W⦄ ⦃js : Json J⦄ ⦃jd : JsonDouble W J⦄ where
  make_processor-name :
      (make_address : Bytes → Option Address) (contract : Bytes) (global : J) (rules : Option J)
      (r : UnitProcessor W × List ConfigMessage)
      → make_processor make_address contract global rules ≡ some r
      → get_contract_name r.0 ≡ contract
  unfolding make_processor get_contract_name
  make_processor-name make_address contract global rules r e =
      let load : Option (SpecialConfig W × List ConfigMessage) =
        from_json make_address global rules in
      elim (Option-cases load) [
        | inl h ↦
            let run : make_processor {W = W} make_address contract global rules ≡ none =
              rw h refl in
            absurd (cc (e, run))
        | inr (c, h) ↦
            let made : UnitProcessor W × List ConfigMessage =
              (record { last_timestamp = pos 0; contract_name = contract; config = c.0 }, c.1) in
            let run : make_processor {W = W} make_address contract global rules ≡ some made =
              rw h refl in
            ap (λ (x : UnitProcessor W × List ConfigMessage). x.0.contract_name)
              (some_injective r made (sym e ∙ run))
      ]

  pub make_processors-names :
      (make_address : Bytes → Option Address) (root global : J) (contracts : List Bytes)
      (ps : List (UnitProcessor W))
      → make_processors make_address root global contracts ≡ some ps
      → map get_contract_name ps ≡ contracts
  unfolding make_processors
  make_processors-names make_address root global [] ps e =
      ap (map get_contract_name) (some_injective ps [] (sym e))
  make_processors-names make_address root global (contract ∷ contracts) ps e =
      let rules = get_contract_validation_config root contract in
      let first : Option (UnitProcessor W × List ConfigMessage) =
        make_processor make_address contract global rules in
      let others : Option (List (UnitProcessor W)) =
        make_processors make_address root global contracts in
      let whole : Option (List (UnitProcessor W)) =
        make_processors make_address root global (contract ∷ contracts) in
      elim (Option-cases first) [
        | inl h ↦ let run : whole ≡ none = rw h refl in absurd (cc (e, run))
        | inr (r, h) ↦ elim (Option-cases others) [
          | inl k ↦ let run : whole ≡ none = rw (h, k) refl in absurd (cc (e, run))
          | inr (qs, k) ↦
              let run : whole ≡ some (r.0 ∷ qs) = rw (h, k) refl in
              ap (map get_contract_name) (some_injective ps (r.0 ∷ qs) (sym e ∙ run))
              ∙ ap (λ name. name ∷ map get_contract_name qs)
                  (make_processor-name make_address contract global rules r h)
              ∙ ap (λ names. contract ∷ names)
                  (make_processors-names make_address root global contracts qs k)
        ]
      ]

cpu_count_of-positive : (sysconf : ℤ) → 0 < cpu_count_of sysconf
cpu_count_of-positive (pos zero) = omega arith
cpu_count_of-positive (pos (suc n)) = omega arith
cpu_count_of-positive (negsuc n) = omega arith

module _ {W Q : Type 0} ⦃qs : SpscQueue (TickData W) Q⦄ (laws : IsSpscQueue (TickData W) Q) where
  -- The queues that the start makes, which are empty.
  pub fresh_lem :
      (size i n k : ℕ) (q : Q)
      → get_elem? (map (λ j. qs.make size) (indices i n)) k ≡ some q
      → qs.make size ≡ q
  fresh_lem size i zero k q e = absurd (cc e)
  fresh_lem size i (suc n) zero q e = some_injective (qs.make size) q e
  fresh_lem size i (suc n) (suc k) q e = fresh_lem size (suc i) n k q e

  pub fresh-empty :
      (size i n k : ℕ) (q : Q)
      → get_elem? (map (λ j. qs.make size) (indices i n)) k ≡ some q
      → laws.contents q ≡ []
  fresh-empty size i n k q e =
      ap laws.contents (sym (fresh_lem size i n k q e)) ∙ laws.contents-make size

  pub fresh-IsConfined : (size n : ℕ) → IsConfined laws n (map (λ j. qs.make size) (indices 0 n))
  fresh-IsConfined size n = (
    length-map (indices 0 n) (λ j. qs.make size) ∙ length-indices 0 n,
    λ k q e. rw (fresh-empty size 0 n k q e) tt,
  )

module _ {W J Q : Type 0} ⦃d : Double W⦄ ⦃js : Json J⦄ ⦃jd : JsonDouble W J⦄
    ⦃qs : SpscQueue (TickData W) Q⦄ (laws : IsSpscQueue (TickData W) Q) where
  -- When the contracts' rules load and the handlers start, the start succeeds with the n handlers that
  -- `thread_num` says, at least one: it leaves a core and a queue for each, no queue with a tick of a
  -- processor that is not its handler's, the processors of the contracts, and the dispatcher ready to
  -- route the contracts to the n queues.
  pub handler_and_dispatcher_start-IsReady :
      (make_address : Bytes → Option Address) (host : Host) (root global : J)
      (container : ContractContainer) (ps : List (UnitProcessor W)) (hs : List TickHandler)
      → make_processors make_address root global container.contracts ≡ some ps
      → start_handlers host
          (cpu_count_of host.sysconf)
          (indices 0 (thread_num_of (cpu_count_of host.sysconf) (length container.contracts)))
        ≡ some hs
      → let n = thread_num_of (cpu_count_of host.sysconf) (length container.contracts) in
        (0 < n)
        × ((s : System W Q) × (handler_and_dispatcher_start make_address host root global container
              ≡ some s)
            × (s.processors ≡ ps)
            × (length s.core_ids ≡ n)
            × IsConfined laws n s.queues
            × IsReady container.contracts n s.dispatcher)
  unfolding handler_and_dispatcher_start
  handler_and_dispatcher_start-IsReady make_address host root global container ps hs e f =
      let n = thread_num_of (cpu_count_of host.sysconf) (length container.contracts) in
      let (some_handler, _, _) =
        thread_num_of-bounds (cpu_count_of host.sysconf) (length container.contracts)
          (cpu_count_of-positive host.sysconf) in
      let names = make_processors-names make_address root global container.contracts ps e in
      let (dispatcher, run, ready) =
        init_dispatcher-IsReady (name_at ps) n (length ps) some_handler in
      let size = queue_size_of (length container.contracts) n in
      (
        some_handler,
        (
          record {
            processors = ps;
            queues = map (λ i. qs.make size) (indices 0 n);
            handlers = hs;
            core_ids = map (λ i. get_biz_core_id i (cpu_count_of host.sysconf)) (indices 0 n);
            dispatcher = dispatcher;
          },
          rw (e, f, run) refl,
          refl,
          length-map (indices 0 n) _ ∙ length-indices 0 n,
          fresh-IsConfined laws size n,
          subst (λ list. IsReady list n dispatcher) (map-name_at ps ∙ names) ready,
        ),
      )
