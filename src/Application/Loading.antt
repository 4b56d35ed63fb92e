-- ===== src/Application/Loading.antt =====
-- When the configuration and the rules of the contracts load.
use mathlib.Core.Option.{some-injective}
use ultra_mds.Base.{
  ◌≡◌, inl, inr, refl, sym, ap, ◌∙◌, Option, none, some, List, [], ◌∷◌, All, Bool-cases,
  >>=-eq-some,
}
use ultra_mds.Base.Int.{pos}
use ultra_mds.Base.Bytes.{Bytes, bytes}
use ultra_mds.Double.{Double}
use ultra_mds.Json.{Json, JsonDouble, IsJson}
use ultra_mds.Config.{Address, SpecialConfig, ConfigMessage}
use ultra_mds.Config.Load.{from_json}
use ultra_mds.Processor.{UnitProcessor}
use ultra_mds.Login.{Loginer, set_broker_id, set_user_id, set_password, set_tcp_address}
use ultra_mds.Reader.{
  get_string, get_contract_validation_config, get_global_validation_config, descend, typed,
}
use ultra_mds.System.{
  ContractContainer, make_processor, make_processors, login_text, load_contract_list, config_init,
}
use ultra_mds.Application.Start.{config_init-contracts}

module _ (W : Type 0) {J : Type 0} ⦃d : Double W⦄ ⦃js : Json J⦄ ⦃jd : JsonDouble W J⦄ where
  -- The global rules and the contract's own load.
  abbrev pub Loads : (Bytes → Option Address) → J → Bytes → Type 0
  Loads make_address root name =
      (r : SpecialConfig W × List ConfigMessage) × (from_json make_address
          (get_global_validation_config root) (get_contract_validation_config root name)
        ≡ some r)

module _ {W J : Type 0} ⦃d : Double W⦄ ⦃js : Json J⦄ ⦃jd : JsonDouble W J⦄ where
  module _ (make_address : Bytes → Option Address) (root : J) where
    pub Loads-made :
        (names : List Bytes) (ps : List (UnitProcessor W))
        → make_processors make_address root (get_global_validation_config root) names ≡ some ps
        → All (Loads W make_address root) names
    unfolding make_processors make_processor
    Loads-made [] ps e = tt
    Loads-made (name ∷ names) ps e =
        let (_, first, e₁) =
          >>=-eq-some
            (make_processor make_address name (get_global_validation_config root)
              (get_contract_validation_config root name))
            _ e in
        let (r, loaded, _) =
          >>=-eq-some
            (from_json make_address (get_global_validation_config root)
              (get_contract_validation_config root name))
            _ first in
        let (qs, others, _) =
          >>=-eq-some (make_processors make_address root (get_global_validation_config root) names)
            _ e₁ in
        ((r, loaded), Loads-made names qs others)

    pub made-Loads :
        (names : List Bytes)
        → All (Loads W make_address root) names
        → (ps : List (UnitProcessor W)) × (make_processors make_address root
              (get_global_validation_config root)
              names
            ≡ some ps)
    unfolding make_processors make_processor
    made-Loads [] all = ([], refl)
    made-Loads (name ∷ names) ((r, loaded), all) =
        let (ps, others) = made-Loads names all in
        (
          record { last_timestamp = pos 0; contract_name = name; config = r.0 } ∷ ps,
          rw (loaded, others) refl,
        )

module _ {W J : Type 0} ⦃js : Json J⦄ ⦃jd : JsonDouble W J⦄ (laws : IsJson W J) where
  text_found :
      (default : Bytes) (o : Option J)
      → (s : Bytes) × (typed js.is_string js.get_string default o ≡ some s)
  text_found default none = (default, refl)
  text_found default (some j) = elim (Bool-cases (js.is_string j)) [
    | inl t ↦ let (s, got) = laws.get_of_string j t in (s, rw t got)
    | inr f ↦ (default, rw f refl)
  ]

  login_text-total : (root : J) (key : Bytes) → (s : Bytes) × (login_text root key ≡ some s)
  unfolding login_text get_string
  login_text-total root key = text_found [] (descend root (bytes "login" ∷ key ∷ []))

  pub config_init-total :
      (root : J) (loginer : Loginer) (container container' : ContractContainer)
      → load_contract_list root container ≡ some container'
      → (loginer' : Loginer) × (config_init root loginer container
          ≡ some (loginer', get_global_validation_config root, container'))
  unfolding config_init
  config_init-total root loginer container container' listed =
      let (b, broker) = login_text-total root (bytes "brokerID") in
      let (u, user) = login_text-total root (bytes "userID") in
      let (w, word) = login_text-total root (bytes "password") in
      let (a, address) = login_text-total root (bytes "tcpAddress") in
      (
        set_tcp_address a (set_password w (set_user_id u (set_broker_id b loginer))),
        rw (broker, user, word, address, listed) refl,
      )

  pub config_init-global :
      (root : J) (loginer : Loginer) (container : ContractContainer)
      (r : Loginer × J × ContractContainer)
      → config_init root loginer container ≡ some r
      → r.1 ≡ get_global_validation_config root
  config_init-global root loginer container r e =
      let listed = config_init-contracts root loginer container e in
      let (_, run) = config_init-total root loginer container r.2 listed in
      ap (λ (x : Loginer × J × ContractContainer). x.1) (some-injective _ _ (sym e ∙ run))
