-- ===== src/Config/Load.antt =====
-- SpecialConfig::fromJson, in the groups in which it reads the keys: first those of the global object,
-- then those of the contract's, then the address. The log lines are values; those of a call that
-- throws are not kept.
use ultra_mds.Base.{
  ℕ, ◌-◌, ◌%◌, Bool, Option, none, some, List, [], ◌∷◌, ◌++◌, ◌&&◌, ◌>>=◌, if◌then◌else◌,
}
use ultra_mds.Base.Int.{ℤ, pos, negsuc, clamp}
use ultra_mds.Base.Bytes.{Bytes, bytes}
use ultra_mds.Double.{Double}
use ultra_mds.Json.{Json, JsonDouble}
use ultra_mds.Config.{
  Address, SpecialConfig, default_config, ConfigMessage, ConfigMessage.tick_size_reset,
  ConfigMessage.bad_address,
}

-- The conversion of an `int` to asio's `port_type`, a 16-bit word.
abbrev pub to_port : ℤ → ℕ
to_port (pos n) = n % 65_536
to_port (negsuc n) = 65_535 - n % 65_536

module _ {J : Type 0} ⦃js : Json J⦄ where
  -- `for (const auto& exch : …) push_back(exch.get<std::string>())`.
  unfoldable pub strings_of : List J → Option (List Bytes)
  strings_of [] = some []
  strings_of (j ∷ rest) = do s ← js.get_string j; more ← strings_of rest; some (s ∷ more)

  -- `if (cJson.contains(key)) field = cJson[key]`.
  abbrev pub override : {A : Type 0} → (J → Option A) → J → Bytes → A → Option A
  override get j key old = if js.contains j key then get (js.member j key) else some old

  -- `if (cJson.contains("check_bid_ask_levels")) … std::clamp(…, 1, 5)`.
  abbrev pub get_levels : J → Option ℤ
  get_levels j = js.get_int j >>= λ levels. some (clamp levels (pos 1) (pos 5))

  abbrev pub has_whitelist : J → Bool
  has_whitelist j =
      js.contains j (bytes "exchange_whitelist")
      && js.is_array (js.member j (bytes "exchange_whitelist"))

  abbrev pub whitelist_items : J → List J
  whitelist_items j = js.items (js.member j (bytes "exchange_whitelist"))

module _ {W : Type 0} ⦃d : Double W⦄ where
  -- `if (config.tick_size <= 0) config.tick_size = 1.0`.
  unfoldable pub fix_tick_size : SpecialConfig W → SpecialConfig W × List ConfigMessage
  fix_tick_size c =
      if d.le c.tick_size d.nought
      then (record c { tick_size = d.one }, tick_size_reset ∷ [])
      else (c, [])

module _ {W J : Type 0} ⦃d : Double W⦄ ⦃js : Json J⦄ ⦃jd : JsonDouble W J⦄ where
  unfoldable pub global_udp : J → SpecialConfig W → Option (SpecialConfig W)
  global_udp j c = do
    port ← js.value_int j (bytes "port") c.udp_config.port
    multi_add ← js.value_string j (bytes "Multi_add") c.udp_config.multi_add
    some (record c { udp_config = record c.udp_config { multi_add = multi_add; port = port } })

  unfoldable pub global_switches : J → SpecialConfig W → Option (SpecialConfig W)
  global_switches j c = do
    exchange ← js.value_bool j (bytes "enable_exchange_check") c.enable_exchange_check
    timestamp ← js.value_bool j (bytes "enable_timestamp_check") c.enable_timestamp_check
    price ← js.value_bool j (bytes "enable_price_check") c.enable_price_check
    volume ← js.value_bool j (bytes "enable_volume_check") c.enable_volume_check
    packet ← js.value_bool j (bytes "enable_abnormal_packet_check") c.enable_abnormal_packet_check
    some (record c {
      enable_exchange_check = exchange;
      enable_timestamp_check = timestamp;
      enable_price_check = price;
      enable_volume_check = volume;
      enable_abnormal_packet_check = packet;
    })

  unfoldable pub global_timing : J → SpecialConfig W → Option (SpecialConfig W)
  global_timing j c = do
    base ← js.value_string j (bytes "timestamp_base") c.timestamp_base
    tolerance ← js.value_int j (bytes "max_disorder_tolerance_ms") c.max_disorder_tolerance_ms
    same_ms ← js.value_bool j (bytes "allow_same_ms_data") c.allow_same_ms_data
    some (record c {
      timestamp_base = base;
      max_disorder_tolerance_ms = tolerance;
      allow_same_ms_data = same_ms;
    })

  unfoldable pub global_prices : J → SpecialConfig W → Option (SpecialConfig W × List ConfigMessage)
  unfolding fix_tick_size
  global_prices j c = do
    levels ← js.value_int j (bytes "check_bid_ask_levels") c.check_bid_ask_levels
    spread ← js.value_int j (bytes "max_invert_spread_tick") c.max_invert_spread_tick
    tick_size ← jd.value_double j (bytes "tick_size") c.tick_size
    let (c', ms) = fix_tick_size (record c {
      check_bid_ask_levels = clamp levels (pos 1) (pos 5);
      max_invert_spread_tick = spread;
      tick_size = tick_size;
    })
    ratio ← jd.value_double j (bytes "limit_price_tolerance_ratio") c'.limit_price_tolerance_ratio
    skip ← js.value_bool j (bytes "skip_zero_limit_price") c'.skip_zero_limit_price
    some (record c' { limit_price_tolerance_ratio = ratio; skip_zero_limit_price = skip }, ms)

  unfoldable pub global_whitelist : J → SpecialConfig W → Option (SpecialConfig W)
  global_whitelist j c =
      if has_whitelist j
      then (strings_of (whitelist_items j) >>= λ names.
          some (record c { exchange_whitelist = c.exchange_whitelist ++ names }))
      else some c

  -- The keys of the global object, in the order of the source.
  unfoldable pub global_keys : J → SpecialConfig W → Option (SpecialConfig W × List ConfigMessage)
  global_keys j c = do
    c₁ ← global_udp j c
    c₂ ← global_switches j c₁
    c₃ ← global_timing j c₂
    (c₄, ms) ← global_prices j c₃
    c₅ ← global_whitelist j c₄
    some (c₅, ms)

  unfoldable pub load_global : J → SpecialConfig W → Option (SpecialConfig W × List ConfigMessage)
  load_global j c = if js.is_null j then some (c, []) else global_keys j c

  unfoldable pub contract_udp : J → SpecialConfig W → Option (SpecialConfig W)
  contract_udp j c = do
    port ← override js.get_int j (bytes "port") c.udp_config.port
    multi_add ← override js.get_string j (bytes "Multi_add") c.udp_config.multi_add
    some (record c { udp_config = record c.udp_config { multi_add = multi_add; port = port } })

  unfoldable pub contract_switches : J → SpecialConfig W → Option (SpecialConfig W)
  contract_switches j c = do
    exchange ← override js.get_bool j (bytes "enable_exchange_check") c.enable_exchange_check
    timestamp ← override js.get_bool j (bytes "enable_timestamp_check") c.enable_timestamp_check
    price ← override js.get_bool j (bytes "enable_price_check") c.enable_price_check
    volume ← override js.get_bool j (bytes "enable_volume_check") c.enable_volume_check
    packet ←
        override js.get_bool j (bytes "enable_abnormal_packet_check") c.enable_abnormal_packet_check
    some (record c {
      enable_exchange_check = exchange;
      enable_timestamp_check = timestamp;
      enable_price_check = price;
      enable_volume_check = volume;
      enable_abnormal_packet_check = packet;
    })

  unfoldable pub contract_timing : J → SpecialConfig W → Option (SpecialConfig W)
  contract_timing j c = do
    base ← override js.get_string j (bytes "timestamp_base") c.timestamp_base
    tolerance ←
        override js.get_int j (bytes "max_disorder_tolerance_ms") c.max_disorder_tolerance_ms
    same_ms ← override js.get_bool j (bytes "allow_same_ms_data") c.allow_same_ms_data
    some (record c {
      timestamp_base = base;
      max_disorder_tolerance_ms = tolerance;
      allow_same_ms_data = same_ms;
    })

  unfoldable pub contract_prices :
      J → SpecialConfig W → Option (SpecialConfig W × List ConfigMessage)
  unfolding fix_tick_size
  contract_prices j c = do
    levels ← override get_levels j (bytes "check_bid_ask_levels") c.check_bid_ask_levels
    spread ← override js.get_int j (bytes "max_invert_spread_tick") c.max_invert_spread_tick
    tick_size ← override jd.get_double j (bytes "tick_size") c.tick_size
    let (c', ms) = fix_tick_size (record c {
      check_bid_ask_levels = levels;
      max_invert_spread_tick = spread;
      tick_size = tick_size;
    })
    ratio ←
        override jd.get_double j (bytes "limit_price_tolerance_ratio")
          c'.limit_price_tolerance_ratio
    skip ← override js.get_bool j (bytes "skip_zero_limit_price") c'.skip_zero_limit_price
    some (record c' { limit_price_tolerance_ratio = ratio; skip_zero_limit_price = skip }, ms)

  unfoldable pub contract_whitelist : J → SpecialConfig W → Option (SpecialConfig W)
  contract_whitelist j c =
      if has_whitelist j
      then (strings_of (whitelist_items j) >>= λ names.
          some (record c { exchange_whitelist = names }))
      else some c

  -- The keys of the contract's object, in the order of the source.
  unfoldable pub contract_keys : J → SpecialConfig W → Option (SpecialConfig W × List ConfigMessage)
  contract_keys j c = do
    c₁ ← contract_udp j c
    c₂ ← contract_switches j c₁
    c₃ ← contract_timing j c₂
    (c₄, ms) ← contract_prices j c₃
    c₅ ← contract_whitelist j c₄
    some (c₅, ms)

  -- `contractJson.has_value() && !contractJson.value().is_null()`.
  unfoldable pub load_contract :
      Option J → SpecialConfig W → Option (SpecialConfig W × List ConfigMessage)
  load_contract none c = some (c, [])
  load_contract (some j) c = if js.is_null j then some (c, []) else contract_keys j c

module _ {W : Type 0} where
  -- The `try` block with asio's `make_address`, which throws on a text that is no address.
  unfoldable pub resolve_endpoint :
      (Bytes → Option Address) → SpecialConfig W → SpecialConfig W × List ConfigMessage
  resolve_endpoint make_address c = elim (make_address c.udp_config.multi_add) [
    | some a ↦ (
      record c {
        udp_config = record c.udp_config {
          target_endpoint = record { address = a; port_number = to_port c.udp_config.port };
        };
      },
      [],
    )
    | none ↦ (
      record c { udp_config = record c.udp_config { multi_add = bytes ""; port = pos 8888 } },
      bad_address ∷ [],
    )
  ]

module _ {W J : Type 0} ⦃d : Double W⦄ ⦃js : Json J⦄ ⦃jd : JsonDouble W J⦄ where
  unfoldable pub from_json :
      (Bytes → Option Address) → J → Option J → Option (SpecialConfig W × List ConfigMessage)
  from_json make_address global contract = do
    (c, ms) ← load_global global default_config
    (c', ms') ← load_contract contract c
    let (c'', ms'') = resolve_endpoint make_address c'
    some (c'', ms ++ ms' ++ ms'')
