-- ===== src/Tests/Rules.antt =====
-- The loading of the rules from concrete JSON texts.
use ultra_mds.Base.{◌≡◌, refl, if◌then◌else◌, Option, some, none, List, [], ◌∷◌, ◌++◌}
use ultra_mds.Base.Int.{pos}
use ultra_mds.Base.Bytes.{Bytes, bytes, same}
use ultra_mds.Double.Fixed.{Fixed, fixed_double, units, whole, Fixed-IsDouble}
use ultra_mds.Json.Tree.{Tree, object, end, field, int, float, tree_json, tree_double, Tree-IsJson}
use ultra_mds.Config.{
  SpecialConfig, Address, v4, ConfigMessage, ConfigMessage.bad_address, default_config,
  default_endpoint,
}
use ultra_mds.Config.Load.{from_json, resolve_endpoint}
use ultra_mds.Config.Bounds.{IsInBounds, from_json-IsInBounds}
use ultra_mds.Config.Layers.{IsLayered, reset_message, from_json-layered, from_json-global}
use ultra_mds.Base.{◌↔◌}
use ultra_mds.Json.Tree.{text}
use ultra_mds.Config.{ConfigMessage.tick_size_reset}
use ultra_mds.Base.{All}
use ultra_mds.Config.WellTyped.{GlobalLoads, ContractLoads}
use ultra_mds.Config.Errors.{from_json_iff}
use ultra_mds.Config.Target.{from_json_without_address}

abbrev pub parse_address : Bytes → Option Address
parse_address address = if same address (bytes "239.0.0.1") then some (v4 4_009_754_625) else none

-- Nine levels, and a price step of 0.
abbrev pub global : Tree
global = object (
    field (bytes "check_bid_ask_levels") (int (pos 9))
      (field (bytes "tick_size") (float (units (pos 0))) end))

abbrev pub contract : Tree
contract = object (field (bytes "check_bid_ask_levels") (int (pos 3)) end)

abbrev pub global_config : SpecialConfig Fixed
global_config = record default_config { check_bid_ask_levels = pos 5 }

abbrev pub contract_config : SpecialConfig Fixed
contract_config = record global_config { check_bid_ask_levels = pos 3 }

pub global_layer : IsLayered global default_config global_config (units (pos 0))
unfolding default_config same
global_layer = record {
  port = refl;
  multi_add = refl;
  target = refl;
  exchange = refl;
  timestamp = refl;
  price = refl;
  volume = refl;
  packet = refl;
  base = refl;
  tolerance = refl;
  same_ms = refl;
  levels = refl;
  spread = refl;
  tick_size_raw = refl;
  tick_size = refl;
  ratio = refl;
  skip = refl;
  whitelist = refl;
}

contract_layer : IsLayered contract global_config contract_config (whole (pos 1))
unfolding default_config same
contract_layer = record {
  port = refl;
  multi_add = refl;
  target = refl;
  exchange = refl;
  timestamp = refl;
  price = refl;
  volume = refl;
  packet = refl;
  base = refl;
  tolerance = refl;
  same_ms = refl;
  levels = refl;
  spread = refl;
  tick_size_raw = refl;
  tick_size = refl;
  ratio = refl;
  skip = refl;
  whitelist = refl;
}

from_json-layered_example :
    let r = resolve_endpoint parse_address contract_config in
    from_json parse_address global (some contract)
    ≡ some (r.0, reset_message (units (pos 0)) ++ reset_message (whole (pos 1)) ++ r.1)
from_json-layered_example =
    from_json-layered Tree-IsJson parse_address global contract global_config contract_config
      (units (pos 0)) (whole (pos 1)) refl refl global_layer contract_layer

from_json-IsInBounds_example : IsInBounds (resolve_endpoint parse_address global_config).0
from_json-IsInBounds_example = from_json-IsInBounds Fixed-IsDouble parse_address global none (
    from_json-global Tree-IsJson parse_address global global_config (units (pos 0)) refl
      global_layer)

both_load :
    (r : SpecialConfig Fixed × List ConfigMessage) × (from_json parse_address global (some contract)
      ≡ some r)
both_load = (
  _,
  from_json-layered Tree-IsJson parse_address global contract global_config contract_config
      (units (pos 0)) (whole (pos 1)) refl refl global_layer contract_layer,
)

loads : GlobalLoads Fixed global × ContractLoads Fixed (some contract)
loads = (from_json_iff Tree-IsJson parse_address global (some contract)).0 both_load

-- Both have rules of their own, and no address.
from_json_without_address_example :
    (r : SpecialConfig Fixed × List ConfigMessage) × (lines : List ConfigMessage) × (from_json
        parse_address global
        (some contract)
      ≡ some r)
    × (r.0.udp_config.target_endpoint ≡ default_endpoint)
    × (r.0.udp_config.port ≡ pos 8888)
    × (r.1 ≡ lines ++ bad_address ∷ [])
    × All (λ m. m ≡ tick_size_reset) lines
unfolding same
from_json_without_address_example =
    from_json_without_address Tree-IsJson parse_address global (some contract) loads.0 loads.1 refl
      refl refl

-- A port that is a text, as in no file that loads.
abbrev mistyped : Tree
mistyped = object (field (bytes "port") (text (bytes "8888")) end)

from_json_iff_example :
    ((r : SpecialConfig Fixed × List ConfigMessage) × (from_json parse_address global
          (some mistyped)
        ≡ some r))
    ↔ (GlobalLoads Fixed global × ContractLoads Fixed (some mistyped))
from_json_iff_example = from_json_iff Tree-IsJson parse_address global (some mistyped)
