-- ===== src/Owner.antt =====
-- The check of a queue's or topic endpoint's owner before a write: `extractOwner` and
-- `ownerValidatingHandler.Handle` of internal/tools/owner_validation.go. The reads of the broker are
-- arguments.
pub mod Check
mod Tests
use solace_broker_mcp.Common.{
  String, List, [], ◌∷◌, Bool, true, false, Option, none, some, key_eq, ite,
}
use solace_broker_mcp.Common.Assoc.{Assoc, find}

-- A parameter of the call. In an object, `none` is a value that is not a string.
pub data Param : Type 0 where
  text : String → Param
  object : Assoc (Option String) → Param
  other : Param

-- A value that is a non-empty string.
unfoldable pub non_empty : Option (Option String) → Option String
non_empty none = none
non_empty (some none) = none
non_empty (some (some s)) = ite (key_eq s "") none (some s)

pub owner_in : Option Param → Option String
owner_in none = none
owner_in (some (text s)) = none
owner_in (some other) = none
owner_in (some (object fields)) = non_empty (find "owner" fields)

pub owner_text : Option Param → Option String
owner_text (some (text s)) = non_empty (some (some s))
owner_text (some (object fields)) = none
owner_text (some other) = none
owner_text none = none

-- The last loop: every object but the one under `config_param`.
pub scan_owner : String → Assoc Param → Option String
scan_owner config_param [] = none
scan_owner config_param ((name, p) ∷ rest) =
    let later = scan_owner config_param rest in
    ite (key_eq name config_param) later
      (elim (owner_in (some p)) [ some o ↦ some o | none ↦ later ])

-- The owner that `extractOwner` finds.
pub extract_owner : Assoc Param → String → Option String
extract_owner params config_param = elim (owner_in (find config_param params)) [
  | some o ↦ some o
  | none ↦ elim (owner_text (find "owner" params)) [
    | some o ↦ some o
    | none ↦ scan_owner config_param params
  ]
]

pub msg_vpn_of : Option Param → String
msg_vpn_of (some (text s)) = s
msg_vpn_of (some (object fields)) = ""
msg_vpn_of (some other) = ""
msg_vpn_of none = ""

-- A read that failed: the broker's NOT_FOUND, by `isSEMPStatus`, or anything else.
pub data ReadError : Type 0 where
  not_found inconclusive : ReadError

pub data Outcome : Type 0 where
  passed_on : Outcome
  owner_check_failed owner_not_found : (owner msg_vpn : String) → Outcome

pub record Broker : Type 0 where
  pub get_username : (msg_vpn owner : String) → Option ReadError
  pub get_vpn : String → Option ReadError

pub after_vpn : String → String → Option ReadError → Outcome
after_vpn owner msg_vpn none = owner_not_found owner msg_vpn
after_vpn owner msg_vpn (some not_found) = passed_on
after_vpn owner msg_vpn (some inconclusive) = owner_check_failed owner msg_vpn

pub after_username : Broker → String → String → Option ReadError → Outcome
after_username broker owner msg_vpn none = passed_on
after_username broker owner msg_vpn (some inconclusive) = owner_check_failed owner msg_vpn
after_username broker owner msg_vpn (some not_found) =
    after_vpn owner msg_vpn (broker.get_vpn msg_vpn)

-- `Handle`: `passed_on` is the call of the wrapped tool.
pub handle : Broker → Assoc Param → String → Outcome
handle broker params config_param = elim (extract_owner params config_param) [
  | none ↦ passed_on
  | some owner ↦
      let msg_vpn = msg_vpn_of (find "msgVpnName" params) in
      after_username broker owner msg_vpn (broker.get_username msg_vpn owner)
]
