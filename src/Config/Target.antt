-- ===== src/Config/Target.antt =====
-- Where the messages of a contract are sent.
use mathlib.Core.Option.{some-injective}
use ultra_mds.Base.{
  ◌≡◌, inl, inr, refl, sym, ◌∙◌, false, Option, none, some, List, [], ◌∷◌, ◌++◌, All, All-append,
  Bool-cases,
}
use ultra_mds.Base.Int.{pos}
use ultra_mds.Base.Bytes.{Bytes, bytes}
use ultra_mds.Double.{Double}
use ultra_mds.Json.{Json, JsonDouble, IsJson}
use ultra_mds.Config.{
  Address, SpecialConfig, default_config, default_endpoint, ConfigMessage,
  ConfigMessage.bad_address, ConfigMessage.tick_size_reset,
}
use ultra_mds.Config.Load.{load_global, load_contract, resolve_endpoint, from_json}
use ultra_mds.Config.Layers.{IsLayered, reset_message, global_keys-eq, keys-eq}
use ultra_mds.Config.WellTyped.{GlobalLoads, ContractLoads}
use ultra_mds.Config.WellTyped.Layered.{IsWellTyped-IsLayered}

module _ {J : Type 0} ⦃js : Json J⦄ where
  abbrev pub LacksAddress : Option J → Type 0
  LacksAddress none = Unit
  LacksAddress (some j) = js.contains j (bytes "Multi_add") ≡ false

module _ {W : Type 0} where
  -- No address has been read, and the log lines are about the price step.
  abbrev IsUnaddressed : SpecialConfig W × List ConfigMessage → Type 0
  IsUnaddressed r =
      (r.0.udp_config.multi_add ≡ [])
      × (r.0.udp_config.target_endpoint ≡ default_endpoint)
      × All (λ m. m ≡ tick_size_reset) r.1

module _ {W : Type 0} where
  -- The endpoint of a default-constructed configuration stays when the address is none.
  abbrev unresolved : SpecialConfig W → SpecialConfig W
  unresolved c = record c {
    udp_config = record c.udp_config { multi_add = bytes ""; port = pos 8888 };
  }

  resolve_endpoint-unresolved :
      (make_address : Bytes → Option Address) (c : SpecialConfig W)
      → make_address c.udp_config.multi_add ≡ none
      → resolve_endpoint make_address c ≡ (unresolved c, bad_address ∷ [])
  unfolding resolve_endpoint
  resolve_endpoint-unresolved make_address c failed = rw (failed, resolve_endpoint) refl

module _ {W : Type 0} ⦃d : Double W⦄ where
  reset_message-All : (raw : W) → All (λ m. m ≡ tick_size_reset) (reset_message raw)
  reset_message-All raw = elim (Bool-cases (d.le raw d.nought)) [
    | inl bad ↦ rw bad (refl, tt)
    | inr good ↦ rw good tt
  ]

module _ {W J : Type 0} ⦃d : Double W⦄ ⦃js : Json J⦄ ⦃jd : JsonDouble W J⦄ where
  layer-IsUnaddressed :
      (j : J) (c c' : SpecialConfig W) (raw : W)
      → IsLayered j c c' raw
      → js.contains j (bytes "Multi_add") ≡ false
      → c.udp_config.multi_add ≡ []
      → c.udp_config.target_endpoint ≡ default_endpoint
      → IsUnaddressed (c', reset_message raw)
  layer-IsUnaddressed j c c' raw l missing empty target = (
    sym (some-injective _ _ (rw missing at l.multi_add)) ∙ empty,
    l.target ∙ target,
    reset_message-All raw,
  )

module _ {W J : Type 0} ⦃d : Double W⦄ ⦃js : Json J⦄ ⦃jd : JsonDouble W J⦄ (laws : IsJson W J) where
  load_global-IsUnaddressed :
      (j : J)
      → GlobalLoads W j
      → js.contains j (bytes "Multi_add") ≡ false
      → (r : SpecialConfig W × List ConfigMessage) × (load_global j default_config ≡ some r)
        × IsUnaddressed r
  unfolding load_global default_config
  load_global-IsUnaddressed j (inl null) missing =
      ((default_config, []), rw null refl, (refl, refl, tt))
  load_global-IsUnaddressed j (inr (object, typed)) missing =
      let (c', raw, l) = IsWellTyped-IsLayered j default_config typed in
      (
        (c', reset_message raw),
        rw (laws.not_null_of_object j object) (global_keys-eq laws j c' raw object l),
        layer-IsUnaddressed j default_config c' raw l missing refl refl,
      )

  load_contract-IsUnaddressed :
      (o : Option J) (c : SpecialConfig W)
      → ContractLoads W o
      → LacksAddress o
      → c.udp_config.multi_add ≡ []
      → c.udp_config.target_endpoint ≡ default_endpoint
      → (r : SpecialConfig W × List ConfigMessage) × (load_contract o c ≡ some r) × IsUnaddressed r
  unfolding load_contract
  load_contract-IsUnaddressed none c _ _ empty target = ((c, []), refl, (empty, target, tt))
  load_contract-IsUnaddressed (some j) c (inl null) _ empty target =
      ((c, []), rw null refl, (empty, target, tt))
  load_contract-IsUnaddressed (some j) c (inr typed) missing empty target =
      elim (Bool-cases (js.is_null j)) [
        | inl null ↦ ((c, []), rw null refl, (empty, target, tt))
        | inr there ↦
            let (c', raw, l) = IsWellTyped-IsLayered j c typed in
            (
              (c', reset_message raw),
              rw there (keys-eq j c c' raw l),
              layer-IsUnaddressed j c c' raw l missing empty target,
            )
      ]

  -- When the rules load, and neither the global value nor the contract's has a key `Multi_add`, the address
  -- is the empty text. Where that is no address, the load still succeeds, logs the fault behind lines about
  -- the price step at most, and leaves the default endpoint, port 0 of 0.0.0.0, as the target.
  pub from_json_without_address :
      (make_address : Bytes → Option Address) (global : J) (contract : Option J)
      → GlobalLoads W global
      → ContractLoads W contract
      → js.contains global (bytes "Multi_add") ≡ false
      → LacksAddress contract
      → make_address [] ≡ none
      → (r : SpecialConfig W × List ConfigMessage) × (lines : List ConfigMessage) × (from_json
            make_address global contract
          ≡ some r)
        × (r.0.udp_config.target_endpoint ≡ default_endpoint)
        × (r.0.udp_config.port ≡ pos 8888)
        × (r.1 ≡ lines ++ bad_address ∷ [])
        × All (λ m. m ≡ tick_size_reset) lines
  unfolding from_json
  from_json_without_address make_address global contract g k no_global no_contract no_address =
      let ((c, ms), first, (empty, target, ms_lem)) =
        load_global-IsUnaddressed global g no_global in
      let ((c', ms'), second, (empty', target', ms'_lem)) =
        load_contract-IsUnaddressed contract c k no_contract empty target in
      let failed : make_address c'.udp_config.multi_add ≡ none = rw empty' no_address in
      (
        (unresolved c', ms ++ ms' ++ bad_address ∷ []),
        ms ++ ms',
        rw (first, second, resolve_endpoint-unresolved make_address c' failed) refl,
        target',
        refl,
        refl,
        All-append _ ms ms' ms_lem ms'_lem,
      )
