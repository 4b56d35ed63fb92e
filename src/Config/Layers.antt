-- ===== src/Config/Layers.antt =====
-- The contract's rules override the global ones, and these the defaults, key by key.
use mathlib.Core.List.{append-nil}
use ultra_mds.Base.{
  ap, ◌∙◌, ◌≡◌, refl, true, false, Option, none, some, List, [], ◌∷◌, ◌++◌, if◌then◌else◌, arith,
}
use ultra_mds.Base.Int.{pos, clamp}
use ultra_mds.Base.Bytes.{Bytes, bytes}
use ultra_mds.Double.{Double}
use ultra_mds.Json.{Json, JsonDouble, IsJson}
use ultra_mds.Config.{Address, SpecialConfig, default_config, ConfigMessage}
use ultra_mds.Config.Load.{
  global_udp, global_switches, global_timing, global_prices, global_whitelist, load_global,
  override, get_levels, has_whitelist, whitelist_items, strings_of, contract_udp, contract_switches,
  contract_timing, contract_prices, contract_whitelist, load_contract, global_keys, contract_keys,
  resolve_endpoint, from_json,
}

module _ {W J : Type 0} ⦃d : Double W⦄ ⦃js : Json J⦄ ⦃jd : JsonDouble W J⦄ (laws : IsJson W J)
    (j : J) where
  module _ (object : js.is_object j ≡ true) (c : SpecialConfig W) where
    pub global_udp-contract_udp : global_udp j c ≡ contract_udp j c
    unfolding global_udp contract_udp
    global_udp-contract_udp =
        simp (laws.value_int_lem j _ _ object, laws.value_string_lem j _ _ object)

    pub global_switches-contract_switches : global_switches j c ≡ contract_switches j c
    unfolding global_switches contract_switches
    global_switches-contract_switches = simp (laws.value_bool_lem j _ _ object)

    pub global_timing-contract_timing : global_timing j c ≡ contract_timing j c
    unfolding global_timing contract_timing
    global_timing-contract_timing = simp (
      laws.value_string_lem j _ _ object,
      laws.value_int_lem j _ _ object,
      laws.value_bool_lem j _ _ object,
    )

    global_whitelist-contract_whitelist :
        c.exchange_whitelist ≡ [] → global_whitelist j c ≡ contract_whitelist j c
    unfolding global_whitelist contract_whitelist
    global_whitelist-contract_whitelist e = rw e

    -- What `value` returns is clamped, the default too.
    pub global_prices-contract_prices_clamped :
        global_prices j c
        ≡ contract_prices j
            (record c { check_bid_ask_levels = clamp c.check_bid_ask_levels (pos 1) (pos 5) })
    unfolding global_prices contract_prices
    global_prices-contract_prices_clamped =
        simp
          (
            laws.value_int_lem j _ _ object,
            laws.value_double_lem j _ _ object,
            laws.value_bool_lem j _ _ object,
          )
          (ground arith)

    global_prices-contract_prices :
        clamp c.check_bid_ask_levels (pos 1) (pos 5) ≡ c.check_bid_ask_levels
        → global_prices j c ≡ contract_prices j c
    global_prices-contract_prices e =
        global_prices-contract_prices_clamped
        ∙ ap (λ levels. contract_prices j (record c { check_bid_ask_levels = levels })) e

module _ {W : Type 0} ⦃d : Double W⦄ where
  abbrev pub fixed : W → W
  fixed x = if d.le x d.nought then d.one else x

  abbrev pub reset_message : W → List ConfigMessage
  reset_message x = if d.le x d.nought then ConfigMessage.tick_size_reset ∷ [] else []

module _ {W J : Type 0} ⦃d : Double W⦄ ⦃js : Json J⦄ ⦃jd : JsonDouble W J⦄ where
  -- The fields of `c'` are those of the JSON object `j` where it has the key, and those of `c` where it
  -- has not; `raw` is the price step before it is checked.
  pub record IsLayered (j : J) (c c' : SpecialConfig W) (raw : W) : Type 0 where
    pub port : override js.get_int j (bytes "port") c.udp_config.port ≡ some c'.udp_config.port
    pub multi_add :
        override js.get_string j (bytes "Multi_add") c.udp_config.multi_add
        ≡ some c'.udp_config.multi_add
    pub target : c'.udp_config.target_endpoint ≡ c.udp_config.target_endpoint
    pub exchange :
        override js.get_bool j (bytes "enable_exchange_check") c.enable_exchange_check
        ≡ some c'.enable_exchange_check
    pub timestamp :
        override js.get_bool j (bytes "enable_timestamp_check") c.enable_timestamp_check
        ≡ some c'.enable_timestamp_check
    pub price :
        override js.get_bool j (bytes "enable_price_check") c.enable_price_check
        ≡ some c'.enable_price_check
    pub volume :
        override js.get_bool j (bytes "enable_volume_check") c.enable_volume_check
        ≡ some c'.enable_volume_check
    pub packet :
        override js.get_bool j (bytes "enable_abnormal_packet_check") c.enable_abnormal_packet_check
        ≡ some c'.enable_abnormal_packet_check
    pub base :
        override js.get_string j (bytes "timestamp_base") c.timestamp_base ≡ some c'.timestamp_base
    pub tolerance :
        override js.get_int j (bytes "max_disorder_tolerance_ms") c.max_disorder_tolerance_ms
        ≡ some c'.max_disorder_tolerance_ms
    pub same_ms :
        override js.get_bool j (bytes "allow_same_ms_data") c.allow_same_ms_data
        ≡ some c'.allow_same_ms_data
    pub levels :
        override get_levels j (bytes "check_bid_ask_levels") c.check_bid_ask_levels
        ≡ some c'.check_bid_ask_levels
    pub spread :
        override js.get_int j (bytes "max_invert_spread_tick") c.max_invert_spread_tick
        ≡ some c'.max_invert_spread_tick
    pub tick_size_raw : override jd.get_double j (bytes "tick_size") c.tick_size ≡ some raw
    pub tick_size : c'.tick_size ≡ fixed raw
    pub ratio :
        override jd.get_double j (bytes "limit_price_tolerance_ratio") c.limit_price_tolerance_ratio
        ≡ some c'.limit_price_tolerance_ratio
    pub skip :
        override js.get_bool j (bytes "skip_zero_limit_price") c.skip_zero_limit_price
        ≡ some c'.skip_zero_limit_price
    pub whitelist :
        (if has_whitelist j then strings_of (whitelist_items j) else some c.exchange_whitelist)
        ≡ some c'.exchange_whitelist

  module _ (j : J) (c c' : SpecialConfig W) (raw : W) (l : IsLayered j c c' raw) where
    abbrev with_udp : SpecialConfig W
    with_udp = record c { udp_config = c'.udp_config }

    abbrev with_switches : SpecialConfig W
    with_switches = record with_udp {
      enable_exchange_check = c'.enable_exchange_check;
      enable_timestamp_check = c'.enable_timestamp_check;
      enable_price_check = c'.enable_price_check;
      enable_volume_check = c'.enable_volume_check;
      enable_abnormal_packet_check = c'.enable_abnormal_packet_check;
    }

    abbrev with_timing : SpecialConfig W
    with_timing = record with_switches {
      timestamp_base = c'.timestamp_base;
      max_disorder_tolerance_ms = c'.max_disorder_tolerance_ms;
      allow_same_ms_data = c'.allow_same_ms_data;
    }

    abbrev with_prices : SpecialConfig W
    with_prices = record c' { exchange_whitelist = c.exchange_whitelist }

    udp-eq : contract_udp j c ≡ some with_udp
    unfolding contract_udp
    udp-eq = rw (l.port, l.multi_add) (ground arith)

    switches-eq : contract_switches j with_udp ≡ some with_switches
    unfolding contract_switches
    switches-eq = rw (l.exchange, l.timestamp, l.price, l.volume, l.packet)

    timing-eq : contract_timing j with_switches ≡ some with_timing
    unfolding contract_timing
    timing-eq = rw (l.base, l.tolerance, l.same_ms)

    prices-eq : contract_prices j with_timing ≡ some (with_prices, reset_message raw)
    unfolding contract_prices
    prices-eq =
        rw (l.levels, l.spread, l.tick_size_raw) (ground (arith, l.tick_size, l.ratio, l.skip))

    whitelist-eq : contract_whitelist j with_prices ≡ some c'
    unfolding contract_whitelist
    whitelist-eq = ground (arith, l.whitelist)

    pub keys-eq : contract_keys j c ≡ some (c', reset_message raw)
    unfolding contract_keys
    keys-eq = rw (udp-eq, switches-eq, timing-eq, prices-eq, whitelist-eq)

module _ {W J : Type 0} ⦃d : Double W⦄ ⦃js : Json J⦄ ⦃jd : JsonDouble W J⦄ (laws : IsJson W J) where
  -- The keys of the global object are read as those of a contract, over the defaults.
  pub global_keys-eq :
      (j : J) (c' : SpecialConfig W) (raw : W)
      → js.is_object j ≡ true
      → IsLayered j default_config c' raw
      → global_keys j default_config ≡ some (c', reset_message raw)
  unfolding global_keys default_config
  global_keys-eq j c' raw object l =
      let c₁ = with_udp j default_config c' raw l in
      let c₂ = with_switches j default_config c' raw l in
      let c₃ = with_timing j default_config c' raw l in
      let c₄ = with_prices j default_config c' raw l in
      rw (
        global_udp-contract_udp laws j object default_config,
        udp-eq j default_config c' raw l,
        global_switches-contract_switches laws j object c₁,
        switches-eq j default_config c' raw l,
        global_timing-contract_timing laws j object c₂,
        timing-eq j default_config c' raw l,
        global_prices-contract_prices laws j object c₃ refl,
        prices-eq j default_config c' raw l,
        global_whitelist-contract_whitelist laws j object c₄ refl,
        whitelist-eq j default_config c' raw l,
      )

  -- Two-level configuration: from a global object and a contract's object whose members have the right
  -- types the load succeeds, and every rule is the contract's, or else the global one, or else the
  -- default, with the levels clamped, a bad price step replaced and the address resolved.
  pub from_json-layered :
      (make_address : Bytes → Option Address) (global contract : J) (c₁ c₂ : SpecialConfig W)
      (raw₁ raw₂ : W)
      → js.is_object global ≡ true
      → js.is_null contract ≡ false
      → IsLayered global default_config c₁ raw₁
      → IsLayered contract c₁ c₂ raw₂
      → let r = resolve_endpoint make_address c₂ in
        from_json make_address global (some contract)
        ≡ some (r.0, reset_message raw₁ ++ reset_message raw₂ ++ r.1)
  unfolding from_json load_global load_contract
  from_json-layered make_address global contract c₁ c₂ raw₁ raw₂ object there first second = rw (
    laws.not_null_of_object global object,
    global_keys-eq global c₁ raw₁ object first,
    there,
    keys-eq contract c₁ c₂ raw₂ second,
  )

  -- From a global object whose members have the right types, a contract without rules of its own gets
  -- each rule from the global object, or else the default, with the levels clamped, a bad price step
  -- replaced and the address resolved.
  pub from_json-global :
      (make_address : Bytes → Option Address) (global : J) (c₁ : SpecialConfig W) (raw₁ : W)
      → js.is_object global ≡ true
      → IsLayered global default_config c₁ raw₁
      → let r = resolve_endpoint make_address c₁ in
        from_json make_address global none ≡ some (r.0, reset_message raw₁ ++ r.1)
  unfolding from_json load_global load_contract
  from_json-global make_address global c₁ raw₁ object first = rw (
    laws.not_null_of_object global object,
    global_keys-eq global c₁ raw₁ object first,
    append-nil,
  )
