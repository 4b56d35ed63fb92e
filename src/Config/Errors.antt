-- ===== src/Config/Errors.antt =====
-- Which configurations do not load.
use ultra_mds.Base.{
  ◌≡◌, ◌↔◌, inl, inr, refl, sym, ◌∙◌, true, false, Option, none, some, List, [], Bool-cases,
  >>=-eq-some, ◌++◌,
}
use ultra_mds.Base.Int.{pos, clamp}
use ultra_mds.Base.Bytes.{Bytes, bytes}
use ultra_mds.Double.{Double}
use ultra_mds.Json.{Json, JsonDouble, IsJson}
use ultra_mds.Config.{Address, SpecialConfig, default_config, ConfigMessage}
use ultra_mds.Config.Layers.{
  reset_message, global_udp-contract_udp, global_switches-contract_switches,
  global_timing-contract_timing, global_prices-contract_prices_clamped, global_keys-eq, keys-eq,
}
use ultra_mds.Config.Load.{
  global_udp, global_switches, global_timing, global_prices, global_whitelist, load_global,
  load_contract, global_keys, resolve_endpoint, from_json,
}
use ultra_mds.Config.WellTyped.{
  Reads, IsWellTyped, contract_udp-Reads, contract_switches-Reads, contract_timing-Reads,
  contract_prices-Reads, global_whitelist-Reads, contract_keys-IsWellTyped, GlobalLoads,
  ContractLoads,
}
use ultra_mds.Config.WellTyped.Layered.{IsWellTyped-IsLayered}

module _ {W J : Type 0} ⦃d : Double W⦄ ⦃js : Json J⦄ ⦃jd : JsonDouble W J⦄ (laws : IsJson W J)
    (j : J) where
  global_prices-Reads :
      (c : SpecialConfig W) {r : SpecialConfig W × List ConfigMessage}
      → js.is_object j ≡ true
      → global_prices j c ≡ some r
      → Reads js.get_int j (bytes "check_bid_ask_levels")
        × Reads js.get_int j (bytes "max_invert_spread_tick")
        × Reads jd.get_double j (bytes "tick_size")
        × Reads jd.get_double j (bytes "limit_price_tolerance_ratio")
        × Reads js.get_bool j (bytes "skip_zero_limit_price")
  global_prices-Reads c object e =
      contract_prices-Reads j
        (record c { check_bid_ask_levels = clamp c.check_bid_ask_levels (pos 1) (pos 5) })
        (sym (global_prices-contract_prices_clamped laws j object c) ∙ e)

  global_keys-fails : (c : SpecialConfig W) → js.is_object j ≡ false → global_keys j c ≡ none
  unfolding global_keys global_udp
  global_keys-fails c other = rw (laws.value_int_of_other j _ _ other) refl

  global_keys-IsWellTyped :
      (c : SpecialConfig W) {r : SpecialConfig W × List ConfigMessage}
      → js.is_object j ≡ true
      → global_keys j c ≡ some r
      → IsWellTyped W j
  unfolding global_keys
  global_keys-IsWellTyped c object e =
      let (c₁, udp, e₁) = >>=-eq-some (global_udp j c) _ e in
      let (c₂, switches, e₂) = >>=-eq-some (global_switches j c₁) _ e₁ in
      let (c₃, timing, e₃) = >>=-eq-some (global_timing j c₂) _ e₂ in
      let ((c₄, ms), prices, e₄) = >>=-eq-some (global_prices j c₃) _ e₃ in
      let (c₅, names, _) = >>=-eq-some (global_whitelist j c₄) _ e₄ in
      let (port, multi_add) =
        contract_udp-Reads j c (sym (global_udp-contract_udp laws j object c) ∙ udp) in
      let (exchange, timestamp, price, volume, packet) =
        contract_switches-Reads j c₁
          (sym (global_switches-contract_switches laws j object c₁) ∙ switches) in
      let (base, tolerance, same_ms) =
        contract_timing-Reads j c₂
          (sym (global_timing-contract_timing laws j object c₂) ∙ timing) in
      let (levels, spread, tick_size, ratio, skip) = global_prices-Reads c₃ object prices in
      record {
        port = port;
        multi_add = multi_add;
        exchange = exchange;
        timestamp = timestamp;
        price = price;
        volume = volume;
        packet = packet;
        base = base;
        tolerance = tolerance;
        same_ms = same_ms;
        levels = levels;
        spread = spread;
        tick_size = tick_size;
        ratio = ratio;
        skip = skip;
        whitelist = global_whitelist-Reads j c₄ names;
      }

module _ {W J : Type 0} ⦃d : Double W⦄ ⦃js : Json J⦄ ⦃jd : JsonDouble W J⦄ (laws : IsJson W J) where
  load_contract-loads :
      (o : Option J) (c : SpecialConfig W) {r : SpecialConfig W × List ConfigMessage}
      → load_contract o c ≡ some r
      → ContractLoads W o
  unfolding load_contract
  load_contract-loads none c e = tt
  load_contract-loads (some j) c e = elim (Bool-cases (js.is_null j)) [
    | inl null ↦ inl null
    | inr there ↦ inr (contract_keys-IsWellTyped j c (rw there at e))
  ]

  loads-load_contract :
      (o : Option J) (c : SpecialConfig W)
      → ContractLoads W o
      → (r : SpecialConfig W × List ConfigMessage) × (load_contract o c ≡ some r)
  unfolding load_contract
  loads-load_contract none c _ = ((c, []), refl)
  loads-load_contract (some j) c (inl null) = ((c, []), rw null refl)
  loads-load_contract (some j) c (inr typed) = elim (Bool-cases (js.is_null j)) [
    | inl null ↦ ((c, []), rw null refl)
    | inr there ↦
        let (c', raw, l) = IsWellTyped-IsLayered j c typed in
        ((c', reset_message raw), rw there (keys-eq j c c' raw l))
  ]

  load_global-loads :
      (j : J) (c : SpecialConfig W) {r : SpecialConfig W × List ConfigMessage}
      → load_global j c ≡ some r
      → GlobalLoads W j
  unfolding load_global
  load_global-loads j c e = elim (Bool-cases (js.is_null j)) [
    | inl null ↦ inl null
    | inr there ↦
        let keys : global_keys j c ≡ some _ = rw there at e in
        elim (Bool-cases (js.is_object j)) [
          | inl object ↦ inr (object, global_keys-IsWellTyped laws j c object keys)
          | inr other ↦ absurd (cc (global_keys-fails laws j c other, keys))
        ]
  ]

  loads-load_global :
      (j : J)
      → GlobalLoads W j
      → (r : SpecialConfig W × List ConfigMessage) × (load_global j default_config ≡ some r)
  unfolding load_global
  loads-load_global j (inl null) = ((default_config, []), rw null refl)
  loads-load_global j (inr (object, typed)) =
      let (c', raw, l) = IsWellTyped-IsLayered j default_config typed in
      (
        (c', reset_message raw),
        rw (laws.not_null_of_object j object) (global_keys-eq laws j c' raw object l),
      )

  -- The rules of a contract load, without an exception, exactly if the global value is null, or an object
  -- whose members are readable as the types that the code asks for, and the contract's value is missing,
  -- null, or has readable members too. A member that is missing is readable, and so is a key that the code
  -- does not ask for.
  pub from_json_iff :
      (make_address : Bytes → Option Address) (global : J) (contract : Option J)
      → ((r : SpecialConfig W × List ConfigMessage) × (from_json make_address global contract
            ≡ some r))
        ↔ (GlobalLoads W global × ContractLoads W contract)
  unfolding from_json
  from_json_iff make_address global contract = (
    (λ (r, e).
        let ((c, ms), first, e₁) = >>=-eq-some (load_global global default_config) _ e in
        let (_, second, _) = >>=-eq-some (load_contract contract c) _ e₁ in
        (load_global-loads global default_config first, load_contract-loads contract c second)),
    (λ (g, k).
        let ((c, ms), first) = loads-load_global global g in
        let ((c', ms'), second) = loads-load_contract contract c k in
        let (c'', ms'') = resolve_endpoint make_address c' in
        ((c'', ms ++ ms' ++ ms''), rw (first, second) refl)),
  )
