-- ===== src/Application/Errors.antt =====
-- When the start of the program fails.
use ultra_mds.Base.{
  ◌<◌, ◌≡◌, ◌↔◌, inl, inr, refl, sym, ap, ◌∙◌, Bool, false, Option, some, List, [], ◌∷◌, length,
  All, arith, Bool-cases, Option-cases, >>=-eq-some,
}
use ultra_mds.Base.Bytes.{Bytes, bytes}
use ultra_mds.Double.{Double}
use ultra_mds.Json.{Json, JsonDouble, IsJson}
use ultra_mds.Tick.{TickData}
use ultra_mds.Queue.{SpscQueue, IsSpscQueue}
use ultra_mds.Config.{Address}
use ultra_mds.Logger.{
  LogCall, Level, trace, info, default_max_file_size, default_max_files, init, log, is_refused,
  init-log,
}
use ultra_mds.Login.{Loginer}
use ultra_mds.Market.{MarketManager, init_manager}
use ultra_mds.Reader.{open_config, get_string_array, get_global_validation_config}
use ultra_mds.System.{
  Host, start_handlers, cpu_count_of, thread_num_of, ContractContainer, make_processors,
  load_contract_list, config_init, handler_and_dispatcher_start,
}
use ultra_mds.System.Handlers.{CanRun, start_handlers-CanRun, CanRun-start_handlers}
use ultra_mds.Dispatcher.Route.{indices}
use ultra_mds.System.Start.{handler_and_dispatcher_start-IsReady}
use ultra_mds.Application.Start.{load_contract_list-contracts, config_init-contracts}
use ultra_mds.Application.{Application, config_path, root_of, app_start}
use ultra_mds.Application.Loading.{
  Loads, Loads-made, made-Loads, config_init-total, config_init-global,
}

module _ (W : Type 0) {J : Type 0} ⦃dw : Double W⦄ ⦃js : Json J⦄ ⦃jd : JsonDouble W J⦄
    (throws : LogCall → Bool) (default_log_path : Bytes) (read_file : Bytes → Option Bytes)
    (parse : Bytes → Option J) (make_address : Bytes → Option Address) (host : Host) where
  -- What a start needs: a configuration file that can be read and is JSON, a log that can be set up, a
  -- contract at least, rules that load for each, and for each handler a socket and a thread that can be
  -- bound to its core.
  pub record CanStart : Type 0 where
    pub content : Bytes
    pub root : J
    pub names : List Bytes
    pub readable : read_file config_path ≡ some content
    pub well_formed : parse content ≡ some root
    pub logged :
        is_refused throws default_log_path trace default_max_file_size default_max_files ≡ false
    pub listed : get_string_array root (bytes "subscribed_contracts" ∷ []) ≡ some names
    pub some_name : 0 < length names
    pub loads : All (Loads W make_address root) names
    pub runs :
        All
          (CanRun host (cpu_count_of host.sysconf))
          (indices 0 (thread_num_of (cpu_count_of host.sysconf) (length names)))

module _ {J : Type 0} (read_file : Bytes → Option Bytes) (parse : Bytes → Option J) (root : J) where
  root_of-found :
      root_of (open_config read_file parse config_path) ≡ some root
      → (content : Bytes) × (read_file config_path ≡ some content) × (parse content ≡ some root)
  unfolding open_config
  root_of-found e = elim (Option-cases (read_file config_path)) [
    | inl h ↦ absurd (cc (rw h at e))
    | inr (content, h) ↦ elim (Option-cases (parse content)) [
      | inl k ↦ absurd (cc (rw (h, k) at e))
      | inr (j, k) ↦ (content, h, k ∙ rw (h, k) at e)
    ]
  ]

module _ (throws : LogCall → Bool) (path : Bytes) where
  abbrev logged_line : Option (Level × Bytes)
  logged_line = log (init throws path trace default_max_file_size default_max_files false).0 info []

  logged_line-made :
      (line : Level × Bytes)
      → logged_line ≡ some line
      → is_refused throws path trace default_max_file_size default_max_files ≡ false
  logged_line-made line e =
      let rule = init-log throws path trace default_max_file_size default_max_files info [] in
      elim (Bool-cases (is_refused throws path trace default_max_file_size default_max_files)) [
        | inl t ↦ absurd (cc (rule.1 t, e))
        | inr f ↦ f
      ]

  made-logged_line :
      is_refused throws path trace default_max_file_size default_max_files ≡ false
      → (line : Level × Bytes) × (logged_line ≡ some line)
  made-logged_line f =
      let rule = init-log throws path trace default_max_file_size default_max_files info [] in
      elim (Option-cases logged_line) [
        | inl none' ↦ absurd (cc (rule.0 none', f))
        | inr found ↦ found
      ]

module _ {W J Q : Type 0} ⦃dw : Double W⦄ ⦃js : Json J⦄ ⦃jd : JsonDouble W J⦄
    ⦃qs : SpscQueue (TickData W) Q⦄ (laws : IsJson W J) (queue_laws : IsSpscQueue (TickData W) Q)
    (throws : LogCall → Bool) (default_log_path : Bytes) (read_file : Bytes → Option Bytes)
    (parse : Bytes → Option J) (make_address : Bytes → Option Address) (host : Host)
    (loginer : Loginer) (container : ContractContainer) (manager : MarketManager) where
  abbrev Started : Type 0
  Started =
      (a : Application W Q) × (app_start throws default_log_path read_file parse make_address host
          loginer container manager
        ≡ some a)

  Started-CanStart : Started → CanStart W throws default_log_path read_file parse make_address host
  unfolding app_start handler_and_dispatcher_start
  Started-CanStart (a, e) =
      let (root, is_opened, e₁) =
        >>=-eq-some (root_of (open_config read_file parse config_path)) _ e in
      let (line, logs, e₂) = >>=-eq-some (logged_line throws default_log_path) _ e₁ in
      let ((loginer', global, container'), inited, e₃) =
        >>=-eq-some (config_init root loginer container) _ e₂ in
      let (s, started, _) =
        >>=-eq-some
          (handler_and_dispatcher_start {W = W} {Q = Q} make_address host root global container') _
          e₃ in
      let (ps, made, going) =
        >>=-eq-some (make_processors {W = W} make_address root global container'.contracts) _
          started in
      let n = thread_num_of (cpu_count_of host.sysconf) (length container'.contracts) in
      let (hs, handlers, _) =
        >>=-eq-some (start_handlers host (cpu_count_of host.sysconf) (indices 0 n)) _ going in
      let same =
        config_init-global laws root loginer container (loginer', global, container') inited in
      let (content, readable, well_formed) = root_of-found read_file parse root is_opened in
      let (listed, many) =
        load_contract_list-contracts root container container'
          (config_init-contracts root loginer container inited) in
      record {
        content = content;
        root = root;
        names = container'.contracts;
        readable = readable;
        well_formed = well_formed;
        logged = logged_line-made throws default_log_path line logs;
        listed = listed;
        some_name = many;
        loads =
            Loads-made make_address root container'.contracts ps (
              ap (λ j. make_processors make_address root j container'.contracts) (sym same) ∙ made);
        runs = start_handlers-CanRun host (cpu_count_of host.sysconf) (indices 0 n) hs handlers;
      }

  CanStart-Started : CanStart W throws default_log_path read_file parse make_address host → Started
  unfolding app_start load_contract_list open_config
  CanStart-Started c =
      let filled : ContractContainer = record { contracts = c.names } in
      let load : load_contract_list c.root container ≡ some filled =
        rw c.listed (ground (arith, c.some_name)) in
      let (loginer', inited) = config_init-total laws c.root loginer container filled load in
      let (line, logs) = made-logged_line throws default_log_path c.logged in
      let (ps, made) = made-Loads make_address c.root c.names c.loads in
      let (hs, going) = CanRun-start_handlers host (cpu_count_of host.sysconf) _ c.runs in
      let (_, (s, started, _, _, _, _)) =
        handler_and_dispatcher_start-IsReady queue_laws make_address host c.root
          (get_global_validation_config c.root) filled ps hs made going in
      let (manager', calls) = init_manager loginer' manager in
      (
        record {
          loginer = loginer';
          container = filled;
          system = s;
          manager = manager';
          api_calls = calls;
        },
        rw (c.readable, c.well_formed, logs, inited, started) refl,
      )

  -- The start of the program succeeds exactly if the configuration file can be read and is JSON, the log
  -- can be set up, the file lists a contract at least, the rules of each load, and for each handler the
  -- socket is opened and takes its option, the thread is made, and it is bound to its core.
  pub app_start_iff :
      ((a : Application W Q) × (app_start throws default_log_path read_file parse make_address host
            loginer container manager
          ≡ some a))
      ↔ CanStart W throws default_log_path read_file parse make_address host
  app_start_iff = (Started-CanStart, CanStart-Started)
