-- ===== src/Config/WellTyped/Layered.antt =====
-- A well-typed object as a layer over a configuration.
use ultra_mds.Base.{◌≡◌, inl, inr, refl, some, List, Bool-cases, Option-cases, if◌then◌else◌}
use ultra_mds.Base.Bytes.{Bytes}
use ultra_mds.Double.{Double}
use ultra_mds.Json.{Json, JsonDouble}
use ultra_mds.Config.{SpecialConfig}
use ultra_mds.Config.Layers.{IsLayered, fixed}
use ultra_mds.Config.Load.{get_levels, has_whitelist, whitelist_items, strings_of}
use ultra_mds.Config.WellTyped.{Reads-override, get_levels-Reads, IsWellTyped}

module _ {W J : Type 0} ⦃d : Double W⦄ ⦃js : Json J⦄ ⦃jd : JsonDouble W J⦄ (j : J) where
  listed :
      (old : List Bytes)
      → IsWellTyped W j
      → (names : List Bytes) × ((if has_whitelist j
            then strings_of (whitelist_items j)
            else some old)
          ≡ some names)
  listed old t = elim (Bool-cases (has_whitelist j)) [
    | inl has ↦ elim (Option-cases (strings_of (whitelist_items j))) [
      | inl fails ↦ absurd (t.whitelist has fails)
      | inr (names, found) ↦ (names, rw (has, found) refl)
    ]
    | inr missing ↦ (old, rw missing refl)
  ]

  -- A well-typed object is a layer over any configuration.
  pub IsWellTyped-IsLayered :
      (c : SpecialConfig W)
      → IsWellTyped W j
      → (c' : SpecialConfig W) × (raw : W) × IsLayered j c c' raw
  IsWellTyped-IsLayered c t =
      let (port, port_eq) = Reads-override js.get_int j _ c.udp_config.port t.port in
      let (multi_add, multi_add_eq) =
        Reads-override js.get_string j _ c.udp_config.multi_add t.multi_add in
      let (exchange, exchange_eq) =
        Reads-override js.get_bool j _ c.enable_exchange_check t.exchange in
      let (timestamp, timestamp_eq) =
        Reads-override js.get_bool j _ c.enable_timestamp_check t.timestamp in
      let (price, price_eq) = Reads-override js.get_bool j _ c.enable_price_check t.price in
      let (volume, volume_eq) = Reads-override js.get_bool j _ c.enable_volume_check t.volume in
      let (packet, packet_eq) =
        Reads-override js.get_bool j _ c.enable_abnormal_packet_check t.packet in
      let (base, base_eq) = Reads-override js.get_string j _ c.timestamp_base t.base in
      let (tolerance, tolerance_eq) =
        Reads-override js.get_int j _ c.max_disorder_tolerance_ms t.tolerance in
      let (same_ms, same_ms_eq) = Reads-override js.get_bool j _ c.allow_same_ms_data t.same_ms in
      let (levels, levels_eq) =
        Reads-override get_levels j _ c.check_bid_ask_levels (get_levels-Reads j _ t.levels) in
      let (spread, spread_eq) = Reads-override js.get_int j _ c.max_invert_spread_tick t.spread in
      let (raw, raw_eq) = Reads-override jd.get_double j _ c.tick_size t.tick_size in
      let (ratio, ratio_eq) =
        Reads-override jd.get_double j _ c.limit_price_tolerance_ratio t.ratio in
      let (skip, skip_eq) = Reads-override js.get_bool j _ c.skip_zero_limit_price t.skip in
      let (names, names_eq) = listed c.exchange_whitelist t in
      (
        record {
          udp_config = record c.udp_config { port = port; multi_add = multi_add };
          enable_exchange_check = exchange;
          enable_timestamp_check = timestamp;
          enable_price_check = price;
          enable_volume_check = volume;
          enable_abnormal_packet_check = packet;
          timestamp_base = base;
          max_disorder_tolerance_ms = tolerance;
          allow_same_ms_data = same_ms;
          check_bid_ask_levels = levels;
          max_invert_spread_tick = spread;
          tick_size = fixed raw;
          limit_price_tolerance_ratio = ratio;
          skip_zero_limit_price = skip;
          exchange_whitelist = names;
        },
        raw,
        record {
          port = port_eq;
          multi_add = multi_add_eq;
          target = refl;
          exchange = exchange_eq;
          timestamp = timestamp_eq;
          price = price_eq;
          volume = volume_eq;
          packet = packet_eq;
          base = base_eq;
          tolerance = tolerance_eq;
          same_ms = same_ms_eq;
          levels = levels_eq;
          spread = spread_eq;
          tick_size_raw = raw_eq;
          tick_size = refl;
          ratio = ratio_eq;
          skip = skip_eq;
          whitelist = names_eq;
        },
      )
