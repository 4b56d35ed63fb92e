-- ===== src/Application/Start.antt =====
-- What the start of the program leaves when it succeeds.
use mathlib.Core.Path.{subst}
use ultra_mds.Base.{
  ℕ, ◌<◌, ◌≡◌, inl, inr, refl, sym, ap, ◌∙◌, Bool, true, false, Option, none, some, List, [], ◌∷◌,
  ◌==◌, if◌then◌else◌, >>=-eq-some, Bool-cases, length, length-map, get_elem?, arith,
}
use ultra_mds.Base.Bytes.{Bytes, bytes}
use ultra_mds.Double.{Double}
use ultra_mds.Json.{Json, JsonDouble}
use ultra_mds.Tick.{TickData}
use ultra_mds.Queue.{SpscQueue, IsSpscQueue}
use ultra_mds.Config.{Address}
use ultra_mds.Reader.{Opened, opened, unreadable, malformed, open_config, get_string_array}
use ultra_mds.Logger.{LogCall, trace, info, default_max_file_size, default_max_files, init, log}
use ultra_mds.Login.{Loginer}
use ultra_mds.Dispatcher.{no_dispatcher, init_dispatcher}
use ultra_mds.Dispatcher.Route.{indices, IsReady}
use ultra_mds.Dispatcher.Confined.{IsConfined}
use ultra_mds.System.{
  Host, start_handlers, thread_num_of, cpu_count_of, queue_size_of, name_at, ContractContainer,
  System, make_processors, add_contracts, clear, login_text, load_contract_list, config_init,
  handler_and_dispatcher_start,
}
use ultra_mds.Processor.Validate.{get_contract_name}
use ultra_mds.System.Start.{
  some_injective, fresh_lem, make_processors-names, handler_and_dispatcher_start-IsReady,
}
use ultra_mds.Pipeline.Capacity.{IsBounded}
use ultra_mds.Market.{MarketManager, get_market_api, init_manager}
use ultra_mds.Application.{Application, config_path, root_of, app_start}

taken :
    {A : Type 0} (n : ℕ) (a b : A) → (if n == 0 then none else some a) ≡ some b → (a ≡ b) × (0 < n)
taken n a b e = elim (Bool-cases (n == 0)) [
  | inl zero' ↦ absurd (ground arith)
  | inr other ↦
      let run : (if n == 0 then none else some a) ≡ some a = rw other refl in
      (some_injective a b (sym run ∙ e), ground arith)
]

root_of-opened : {J : Type 0} (o : Opened J) (root : J) → root_of o ≡ some root → o ≡ opened root
root_of-opened (opened r) root e = ap opened (some_injective r root e)
root_of-opened unreadable root e = absurd (cc e)
root_of-opened malformed root e = absurd (cc e)

module _ {J : Type 0} ⦃js : Json J⦄ where
  pub load_contract_list-contracts :
      (root : J) (container container' : ContractContainer)
      → load_contract_list root container ≡ some container'
      → (get_string_array root (bytes "subscribed_contracts" ∷ []) ≡ some container'.contracts)
        × (0 < length container'.contracts)
  unfolding load_contract_list
  load_contract_list-contracts root container container' e =
      let (contracts, run, f) =
        >>=-eq-some (get_string_array root (bytes "subscribed_contracts" ∷ [])) _ e in
      let (same, positive) =
        taken (length contracts) (add_contracts contracts (clear container)) container' f in
      let list : contracts ≡ container'.contracts =
        ap (λ (c : ContractContainer). c.contracts) same in
      (run ∙ ap some list, subst (λ names. 0 < length names) list positive)

  pub config_init-contracts :
      (root : J) (loginer : Loginer) (container : ContractContainer)
      {r : Loginer × J × ContractContainer}
      → config_init root loginer container ≡ some r
      → load_contract_list root container ≡ some r.2
  unfolding config_init
  config_init-contracts root loginer container e =
      let (_, _, e₁) = >>=-eq-some (login_text root (bytes "brokerID")) _ e in
      let (_, _, e₂) = >>=-eq-some (login_text root (bytes "userID")) _ e₁ in
      let (_, _, e₃) = >>=-eq-some (login_text root (bytes "password")) _ e₂ in
      let (_, _, e₄) = >>=-eq-some (login_text root (bytes "tcpAddress")) _ e₃ in
      let (container', run, e₅) = >>=-eq-some (load_contract_list root container) _ e₄ in
      run
      ∙ ap (λ c. some c) (ap (λ (x : Loginer × J × ContractContainer). x.2) (some_injective _ _ e₅))

queue_size_of-positive : (contract_num thread_num : ℕ) → 0 < queue_size_of contract_num thread_num
unfolding queue_size_of
queue_size_of-positive contract_num thread_num = ground arith

module _ {W Q : Type 0} ⦃qs : SpscQueue (TickData W) Q⦄ (laws : IsSpscQueue (TickData W) Q) where
  -- For some number n of handlers: empty queues, a processor for each contract, and a dispatcher that is
  -- ready to route the contracts.
  pub record IsStarted (container : ContractContainer) (s : System W Q) : Type 0 where
    pub n : ℕ
    pub positive : 0 < n
    pub confined : IsConfined laws n s.queues
    pub ready : IsReady container.contracts n s.dispatcher
    pub made_lem :
        (k : ℕ) (q : Q)
        → get_elem? s.queues k ≡ some q
        → qs.make (queue_size_of (length container.contracts) n) ≡ q
    pub all : length s.processors ≡ length container.contracts

  module _ {container : ContractContainer} {s : System W Q} (started : IsStarted container s) where
    abbrev pub queue_size : ℕ
    queue_size = queue_size_of (length container.contracts) started.n

    queue_size-positive : 0 < queue_size
    queue_size-positive = queue_size_of-positive (length container.contracts) started.n

    pub IsStarted-empty : (k : ℕ) (q : Q) → get_elem? s.queues k ≡ some q → laws.contents q ≡ []
    IsStarted-empty k q held =
        ap laws.contents (sym (started.made_lem k q held)) ∙ laws.contents-make queue_size

    pub IsStarted-IsBounded : IsBounded laws started.n queue_size s.queues
    IsStarted-IsBounded = record {
      count = started.confined.0;
      holds = λ k q held. (
        ap laws.capacity (sym (started.made_lem k q held))
            ∙ laws.capacity-make queue_size queue_size-positive,
        rw (IsStarted-empty k q held) (omega arith),
      );
    }

module _ {W J Q : Type 0} ⦃dw : Double W⦄ ⦃js : Json J⦄ ⦃jd : JsonDouble W J⦄
    ⦃qs : SpscQueue (TickData W) Q⦄ (laws : IsSpscQueue (TickData W) Q) where
  handler_and_dispatcher_start-made :
      (make_address : Bytes → Option Address) (host : Host) (root global : J)
      (container : ContractContainer) (s : System W Q) (k : ℕ) (q : Q)
      → handler_and_dispatcher_start make_address host root global container ≡ some s
      → get_elem? s.queues k ≡ some q
      → qs.make (
          queue_size_of
            (length container.contracts)
            (thread_num_of (cpu_count_of host.sysconf) (length container.contracts)))
        ≡ q
  unfolding handler_and_dispatcher_start
  handler_and_dispatcher_start-made make_address host root global container s k q e held =
      let n = thread_num_of (cpu_count_of host.sysconf) (length container.contracts) in
      let (ps, made, e₁) =
        >>=-eq-some (make_processors make_address root global container.contracts) _ e in
      let (_, _, e₁') =
        >>=-eq-some (start_handlers host (cpu_count_of host.sysconf) (indices 0 n)) _ e₁ in
      let (dispatcher, run, e₂) =
        >>=-eq-some
          (init_dispatcher (name_at ps) (indices 0 n) (indices 0 (length ps)) no_dispatcher) _
          e₁' in
      fresh_lem laws (queue_size_of (length container.contracts) n) 0 n k q
        (ap (λ (x : System W Q). get_elem? x.queues k) (some_injective _ s e₂) ∙ held)

  handler_and_dispatcher_start-IsStarted :
      (make_address : Bytes → Option Address) (host : Host) (root global : J)
      (container : ContractContainer) (s : System W Q)
      → handler_and_dispatcher_start make_address host root global container ≡ some s
      → IsStarted laws container s
  unfolding handler_and_dispatcher_start
  handler_and_dispatcher_start-IsStarted make_address host root global container s e =
      let n = thread_num_of (cpu_count_of host.sysconf) (length container.contracts) in
      let (ps, made, e') =
        >>=-eq-some (make_processors make_address root global container.contracts) _ e in
      let (hs, going, _) =
        >>=-eq-some (start_handlers host (cpu_count_of host.sysconf) (indices 0 n)) _ e' in
      let (positive, (t, run, processors, _, fresh, ready)) =
        handler_and_dispatcher_start-IsReady laws make_address host root global container ps hs made
          going in
      let same = some_injective t s (sym run ∙ e) in
      let names = make_processors-names make_address root global container.contracts ps made in
      record {
        n = n;
        positive = positive;
        confined = subst (λ (x : System W Q). IsConfined laws n x.queues) same fresh;
        ready = subst (λ (x : System W Q). IsReady container.contracts n x.dispatcher) same ready;
        made_lem = λ k q held.
            handler_and_dispatcher_start-made make_address host root global container s k q e held;
        all =
            ap (λ (x : System W Q). length x.processors) (sym same)
            ∙ ap length processors
            ∙ sym (length-map ps get_contract_name)
            ∙ ap length names;
      }

  pub app_start-IsStarted :
      (throws : LogCall → Bool) (default_log_path : Bytes) (read_file : Bytes → Option Bytes)
      (parse : Bytes → Option J) (make_address : Bytes → Option Address) (host : Host)
      (loginer : Loginer) (container : ContractContainer) (manager : MarketManager)
      (a : Application W Q)
      → app_start throws default_log_path read_file parse make_address host loginer container
          manager
        ≡ some a
      → (root : J) × (open_config read_file parse config_path ≡ opened root)
        × (get_string_array root (bytes "subscribed_contracts" ∷ []) ≡ some a.container.contracts)
        × (0 < length a.container.contracts)
        × (get_market_api a.manager ≡ true)
        × IsStarted laws a.container a.system
  unfolding app_start init_manager
  app_start-IsStarted throws default_log_path read_file parse make_address host loginer container
        manager a e =
      let (root, is_opened, e₁) =
        >>=-eq-some (root_of (open_config read_file parse config_path)) _ e in
      let logger =
        init throws default_log_path trace default_max_file_size default_max_files false in
      let (_, _, e') = >>=-eq-some (log logger.0 info []) _ e₁ in
      let ((loginer', global, container'), inited, e₂) =
        >>=-eq-some (config_init root loginer container) _ e' in
      let (s, made, e₃) =
        >>=-eq-some (handler_and_dispatcher_start make_address host root global container') _ e₂ in
      let (listed, many) =
        load_contract_list-contracts root container container'
          (config_init-contracts root loginer container inited) in
      let list = ap (λ (x : Application W Q). x.container.contracts) (some_injective _ a e₃) in
      (
        root,
        root_of-opened _ root is_opened,
        listed ∙ ap some list,
        subst (λ (xs : List Bytes). 0 < length xs) list many,
        ap (λ (x : Application W Q). get_market_api x.manager) (sym (some_injective _ a e₃)),
        subst (λ (x : Application W Q). IsStarted laws x.container x.system) (some_injective _ a e₃)
            (handler_and_dispatcher_start-IsStarted make_address host root global container' s
              made),
      )
