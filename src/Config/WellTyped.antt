-- ===== src/Config/WellTyped.antt =====
-- The members of a configuration that the loading reads, and their types.
pub mod Layered
use ultra_mds.Base.{
  ◌≡◌, ◌≢◌, ◌⊎◌, inl, inr, refl, true, Option, none, some, List, arith, Bool-cases, Option-cases,
  >>=-eq-some,
}
use ultra_mds.Base.Bytes.{Bytes, bytes}
use ultra_mds.Double.{Double}
use ultra_mds.Json.{Json, JsonDouble}
use ultra_mds.Config.{SpecialConfig, ConfigMessage}
use ultra_mds.Config.Load.{
  global_whitelist, override, get_levels, has_whitelist, whitelist_items, strings_of, contract_udp,
  contract_switches, contract_timing, contract_prices, contract_whitelist, contract_keys,
}

module _ {J : Type 0} ⦃js : Json J⦄ where
  -- The member can be read, if it is there.
  abbrev pub Reads : {A : Type 0} → (J → Option A) → J → Bytes → Type 0
  Reads get j key = js.contains j key ≡ true → get (js.member j key) ≢ none

  override-Reads :
      {A : Type 0} (get : J → Option A) (j : J) (key : Bytes) (old a : A)
      → override get j key old ≡ some a
      → Reads get j key
  override-Reads get j key old a e there fails = cc (rw (there, fails) at e)

  pub Reads-override :
      {A : Type 0} (get : J → Option A) (j : J) (key : Bytes) (old : A)
      → Reads get j key
      → (a : A) × (override get j key old ≡ some a)
  Reads-override get j key old reads = elim (Bool-cases (js.contains j key)) [
    | inl there ↦ elim (Option-cases (get (js.member j key))) [
      | inl fails ↦ absurd (reads there fails)
      | inr (a, found) ↦ (a, rw (there, found) refl)
    ]
    | inr missing ↦ (old, rw missing refl)
  ]

  pub get_levels-Reads : (j : J) (key : Bytes) → Reads js.get_int j key → Reads get_levels j key
  get_levels-Reads j key reads there fails = reads there (ground arith)

module _ (W : Type 0) {J : Type 0} ⦃js : Json J⦄ ⦃jd : JsonDouble W J⦄ where
  -- Every key that the code reads has a member of its type, or none at all.
  pub record IsWellTyped (j : J) : Type 0 where
    pub port : Reads js.get_int j (bytes "port")
    pub multi_add : Reads js.get_string j (bytes "Multi_add")
    pub exchange : Reads js.get_bool j (bytes "enable_exchange_check")
    pub timestamp : Reads js.get_bool j (bytes "enable_timestamp_check")
    pub price : Reads js.get_bool j (bytes "enable_price_check")
    pub volume : Reads js.get_bool j (bytes "enable_volume_check")
    pub packet : Reads js.get_bool j (bytes "enable_abnormal_packet_check")
    pub base : Reads js.get_string j (bytes "timestamp_base")
    pub tolerance : Reads js.get_int j (bytes "max_disorder_tolerance_ms")
    pub same_ms : Reads js.get_bool j (bytes "allow_same_ms_data")
    pub levels : Reads js.get_int j (bytes "check_bid_ask_levels")
    pub spread : Reads js.get_int j (bytes "max_invert_spread_tick")
    pub tick_size : Reads jd.get_double j (bytes "tick_size")
    pub ratio : Reads jd.get_double j (bytes "limit_price_tolerance_ratio")
    pub skip : Reads js.get_bool j (bytes "skip_zero_limit_price")
    pub whitelist : has_whitelist j ≡ true → strings_of (whitelist_items j) ≢ none

  -- What the global value and the contract's must be.
  abbrev pub GlobalLoads : J → Type 0
  GlobalLoads global =
      (js.is_null global ≡ true) ⊎ ((js.is_object global ≡ true) × IsWellTyped global)

  abbrev pub ContractLoads : Option J → Type 0
  ContractLoads none = Unit
  ContractLoads (some j) = (js.is_null j ≡ true) ⊎ IsWellTyped j

module _ {W J : Type 0} ⦃d : Double W⦄ ⦃js : Json J⦄ ⦃jd : JsonDouble W J⦄ (j : J)
    (c : SpecialConfig W) where
  pub contract_switches-Reads :
      {r : SpecialConfig W}
      → contract_switches j c ≡ some r
      → Reads js.get_bool j (bytes "enable_exchange_check")
        × Reads js.get_bool j (bytes "enable_timestamp_check")
        × Reads js.get_bool j (bytes "enable_price_check")
        × Reads js.get_bool j (bytes "enable_volume_check")
        × Reads js.get_bool j (bytes "enable_abnormal_packet_check")
  unfolding contract_switches
  contract_switches-Reads e = ground arith

  pub contract_udp-Reads :
      {r : SpecialConfig W}
      → contract_udp j c ≡ some r
      → Reads js.get_int j (bytes "port") × Reads js.get_string j (bytes "Multi_add")
  unfolding contract_udp
  contract_udp-Reads e = ground arith

  pub contract_prices-Reads :
      {r : SpecialConfig W × List ConfigMessage}
      → contract_prices j c ≡ some r
      → Reads js.get_int j (bytes "check_bid_ask_levels")
        × Reads js.get_int j (bytes "max_invert_spread_tick")
        × Reads jd.get_double j (bytes "tick_size")
        × Reads jd.get_double j (bytes "limit_price_tolerance_ratio")
        × Reads js.get_bool j (bytes "skip_zero_limit_price")
  unfolding contract_prices
  contract_prices-Reads e = ground arith

  pub contract_timing-Reads :
      {r : SpecialConfig W}
      → contract_timing j c ≡ some r
      → Reads js.get_string j (bytes "timestamp_base")
        × Reads js.get_int j (bytes "max_disorder_tolerance_ms")
        × Reads js.get_bool j (bytes "allow_same_ms_data")
  unfolding contract_timing
  contract_timing-Reads e = ground arith

  whitelist-Reads :
      {r : SpecialConfig W}
      → contract_whitelist j c ≡ some r
      → has_whitelist j ≡ true
      → strings_of (whitelist_items j) ≢ none
  unfolding contract_whitelist
  whitelist-Reads e has fails = cc (rw (has, fails) at e)

  pub global_whitelist-Reads :
      {r : SpecialConfig W}
      → global_whitelist j c ≡ some r
      → has_whitelist j ≡ true
      → strings_of (whitelist_items j) ≢ none
  unfolding global_whitelist
  global_whitelist-Reads e has fails = cc (rw (has, fails) at e)

module _ {W J : Type 0} ⦃d : Double W⦄ ⦃js : Json J⦄ ⦃jd : JsonDouble W J⦄ (j : J) where
  pub contract_keys-IsWellTyped :
      (c : SpecialConfig W) {r : SpecialConfig W × List ConfigMessage}
      → contract_keys j c ≡ some r
      → IsWellTyped W j
  unfolding contract_keys
  contract_keys-IsWellTyped c e =
      let (c₁, udp, e₁) = >>=-eq-some (contract_udp j c) _ e in
      let (c₂, switches, e₂) = >>=-eq-some (contract_switches j c₁) _ e₁ in
      let (c₃, timing, e₃) = >>=-eq-some (contract_timing j c₂) _ e₂ in
      let ((c₄, ms), prices, e₄) = >>=-eq-some (contract_prices j c₃) _ e₃ in
      let (c₅, names, _) = >>=-eq-some (contract_whitelist j c₄) _ e₄ in
      let (port, multi_add) = contract_udp-Reads j c udp in
      let (exchange, timestamp, price, volume, packet) = contract_switches-Reads j c₁ switches in
      let (base, tolerance, same_ms) = contract_timing-Reads j c₂ timing in
      let (levels, spread, tick_size, ratio, skip) = contract_prices-Reads j c₃ prices in
      record {
        port = port;
        multi_add = multi_add;
        exchange = exchange;
        timestamp = timestamp;
        price = price;
        volume = volume;
        packet = packet;
        base = base;
        tolerance = tolerance;
        same_ms = same_ms;
        levels = levels;
        spread = spread;
        tick_size = tick_size;
        ratio = ratio;
        skip = skip;
        whitelist = whitelist-Reads j c₄ names;
      }
