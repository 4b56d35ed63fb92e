-- ===== src/Config/Bounds.antt =====
-- What every loaded configuration satisfies, whatever the JSON values hold.
use mathlib.Core.Option.{some-injective}
use ultra_mds.Base.{
  inl, inr, ◌≡◌, false, Option, none, some, List, arith, Option-cases, >>=-eq-some,
}
use ultra_mds.Base.Int.{pos, ◌≤ℤ◌}
use ultra_mds.Base.Bytes.{Bytes}
use ultra_mds.Double.{Double, IsDouble}
use ultra_mds.Json.{Json, JsonDouble}
use ultra_mds.Config.{Address, SpecialConfig, default_config, ConfigMessage}
use ultra_mds.Config.Load.{
  global_udp, global_switches, global_timing, global_prices, global_whitelist, load_global,
  global_keys, contract_udp, contract_switches, contract_timing, contract_prices,
  contract_whitelist, load_contract, contract_keys, resolve_endpoint, from_json,
}

module _ {W : Type 0} ⦃d : Double W⦄ where
  -- The levels to check are 1 to 5, and the price step is not zero or below.
  pub record IsInBounds (c : SpecialConfig W) : Type 0 where
    pub levels_ge : pos 1 ≤ℤ c.check_bid_ask_levels
    pub levels_le : c.check_bid_ask_levels ≤ℤ pos 5
    pub tick_size_pos : d.le c.tick_size d.nought ≡ false

  default_config-IsInBounds : IsDouble W → IsInBounds default_config
  unfolding default_config
  default_config-IsInBounds laws = record {
    levels_ge = omega arith;
    levels_le = omega arith;
    tick_size_pos = laws.one_pos;
  }

  resolve_endpoint-IsInBounds :
      (make_address : Bytes → Option Address) (c : SpecialConfig W)
      → IsInBounds c
      → IsInBounds (resolve_endpoint make_address c).0
  unfolding resolve_endpoint
  resolve_endpoint-IsInBounds make_address c v = ground arith

module _ {W J : Type 0} ⦃d : Double W⦄ ⦃js : Json J⦄ ⦃jd : JsonDouble W J⦄ (laws : IsDouble W) where
  global_prices-IsInBounds :
      (j : J) (c : SpecialConfig W) {r : SpecialConfig W × List ConfigMessage}
      → global_prices j c ≡ some r
      → IsInBounds r.0
  unfolding global_prices
  global_prices-IsInBounds j c e = ground (arith, laws.one_pos)

  global_whitelist-IsInBounds :
      (j : J) (c : SpecialConfig W) {r : SpecialConfig W}
      → IsInBounds c
      → global_whitelist j c ≡ some r
      → IsInBounds r
  unfolding global_whitelist
  global_whitelist-IsInBounds j c v e = ground arith

  contract_prices-IsInBounds :
      (j : J) (c : SpecialConfig W) {r : SpecialConfig W × List ConfigMessage}
      → IsInBounds c
      → contract_prices j c ≡ some r
      → IsInBounds r.0
  unfolding contract_prices
  contract_prices-IsInBounds j c v e = ground (arith, laws.one_pos)

  -- The stages that leave the checked levels and the price step alone.
  contract_udp-IsInBounds :
      (j : J) (c : SpecialConfig W) {r : SpecialConfig W}
      → IsInBounds c
      → contract_udp j c ≡ some r
      → IsInBounds r
  unfolding contract_udp
  contract_udp-IsInBounds j c v e = ground arith

  contract_switches-IsInBounds :
      (j : J) (c : SpecialConfig W) {r : SpecialConfig W}
      → IsInBounds c
      → contract_switches j c ≡ some r
      → IsInBounds r
  unfolding contract_switches
  contract_switches-IsInBounds j c v e = ground arith

  contract_timing-IsInBounds :
      (j : J) (c : SpecialConfig W) {r : SpecialConfig W}
      → IsInBounds c
      → contract_timing j c ≡ some r
      → IsInBounds r
  unfolding contract_timing
  contract_timing-IsInBounds j c v e = ground arith

  contract_whitelist-IsInBounds :
      (j : J) (c : SpecialConfig W) {r : SpecialConfig W}
      → IsInBounds c
      → contract_whitelist j c ≡ some r
      → IsInBounds r
  unfolding contract_whitelist
  contract_whitelist-IsInBounds j c v e = ground arith

  global_keys-IsInBounds :
      (j : J) (c : SpecialConfig W) {r : SpecialConfig W × List ConfigMessage}
      → global_keys j c ≡ some r
      → IsInBounds r.0
  unfolding global_keys
  global_keys-IsInBounds j c {r} e = elim (Option-cases (global_udp j c)) [
    | inl x ↦ absurd (ground arith)
    | inr (c₁, udp) ↦ elim (Option-cases (global_switches j c₁)) [
      | inl x ↦ absurd (ground arith)
      | inr (c₂, switches) ↦ elim (Option-cases (global_timing j c₂)) [
        | inl x ↦ absurd (ground arith)
        | inr (c₃, timing) ↦ elim (Option-cases (global_prices j c₃)) [
          | inl x ↦ absurd (ground arith)
          | inr (c₄, prices) ↦ elim (Option-cases (global_whitelist j c₄.0)) [
            | inl x ↦ absurd (ground arith)
            | inr (c₅, whitelist) ↦ ground (
              arith,
              global_whitelist-IsInBounds j c₄.0 (global_prices-IsInBounds j c₃ prices) whitelist,
            )
          ]
        ]
      ]
    ]
  ]

  contract_keys-IsInBounds :
      (j : J) (c : SpecialConfig W) {r : SpecialConfig W × List ConfigMessage}
      → IsInBounds c
      → contract_keys j c ≡ some r
      → IsInBounds r.0
  unfolding contract_keys
  contract_keys-IsInBounds j c {r} v e = elim (Option-cases (contract_udp j c)) [
    | inl x ↦ absurd (ground arith)
    | inr (c₁, udp) ↦ elim (Option-cases (contract_switches j c₁)) [
      | inl x ↦ absurd (ground arith)
      | inr (c₂, switches) ↦ elim (Option-cases (contract_timing j c₂)) [
        | inl x ↦ absurd (ground arith)
        | inr (c₃, timing) ↦ elim (Option-cases (contract_prices j c₃)) [
          | inl x ↦ absurd (ground arith)
          | inr (c₄, prices) ↦ elim (Option-cases (contract_whitelist j c₄.0)) [
            | inl x ↦ absurd (ground arith)
            | inr (c₅, whitelist) ↦
                let v₁ = contract_udp-IsInBounds j c v udp in
                let v₂ = contract_switches-IsInBounds j c₁ v₁ switches in
                let v₃ = contract_timing-IsInBounds j c₂ v₂ timing in
                let v₄ = contract_prices-IsInBounds j c₃ v₃ prices in
                ground (arith, contract_whitelist-IsInBounds j c₄.0 v₄ whitelist)
          ]
        ]
      ]
    ]
  ]

  load_global-IsInBounds :
      (j : J) (c : SpecialConfig W) {r : SpecialConfig W × List ConfigMessage}
      → IsInBounds c
      → load_global j c ≡ some r
      → IsInBounds r.0
  unfolding load_global
  load_global-IsInBounds j c {r} v e = ground (arith, global_keys-IsInBounds j c {r = r})

  load_contract-IsInBounds :
      (contract : Option J) (c : SpecialConfig W) {r : SpecialConfig W × List ConfigMessage}
      → IsInBounds c
      → load_contract contract c ≡ some r
      → IsInBounds r.0
  unfolding load_contract
  load_contract-IsInBounds none c {r} v e = ground arith
  load_contract-IsInBounds (some j) c {r} v e =
      ground (arith, contract_keys-IsInBounds j c {r = r} v)

  -- Whatever the two JSON values hold, a configuration that is loaded checks 1 to 5 levels and has a
  -- price step that is not zero or below.
  pub from_json-IsInBounds :
      (make_address : Bytes → Option Address) (global : J) (contract : Option J)
      {r : SpecialConfig W × List ConfigMessage}
      → from_json make_address global contract ≡ some r
      → IsInBounds r.0
  unfolding from_json
  from_json-IsInBounds make_address global contract e =
      let (c₁, first, e₁) = >>=-eq-some _ _ e in
      let (c₂, second, e₂) = >>=-eq-some _ _ e₁ in
      let v₁ =
        load_global-IsInBounds global default_config (default_config-IsInBounds laws) first in
      let v₂ = load_contract-IsInBounds contract c₁.0 v₁ second in
      rw (← some-injective _ _ e₂) (resolve_endpoint-IsInBounds make_address c₂.0 v₂)
