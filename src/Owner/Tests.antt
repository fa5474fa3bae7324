-- ===== src/Owner/Tests.antt =====
-- Runs of the owner check, and an instance of each of its theorems.
use solace_broker_mcp.Common.{◌≡◌, ◌⊎◌, refl, String, [], ◌∷◌, none, some, key_eq}
use solace_broker_mcp.Common.Assoc.{Assoc, find}
use solace_broker_mcp.Owner.{
  Param, text, object, non_empty, owner_in, owner_text, scan_owner, extract_owner, msg_vpn_of,
  not_found, passed_on, owner_not_found, Broker, after_vpn, after_username, handle,
}
use solace_broker_mcp.Owner.Check.{handle-passed_on}

-- A broker without the VPN "v2", which does not know the user "ghost" elsewhere.
abbrev broker : Broker
broker = record { get_username = λ vpn owner. some not_found; get_vpn = λ vpn. some not_found }

abbrev strict : Broker
strict = record { get_username = λ vpn owner. some not_found; get_vpn = λ vpn. none }

abbrev hidden_owner : Assoc Param
hidden_owner = ("msgVpnName", text "v") ∷ ("owner", object (("owner", some "ghost") ∷ [])) ∷ []

abbrev ownerless : Assoc Param
ownerless = ("msgVpnName", text "v") ∷ ("queueConfig", object (("owner", none) ∷ [])) ∷ []

owner_test :
    (handle strict hidden_owner "queueConfig" ≡ owner_not_found "ghost" "v")
    × (handle broker hidden_owner "queueConfig" ≡ passed_on)
    × (extract_owner ownerless "queueConfig" ≡ none)
    × (find "queueConfig" ownerless ≡ some (object (("owner", none) ∷ [])))
unfolding handle extract_owner owner_in owner_text scan_owner non_empty msg_vpn_of after_username
    after_vpn find key_eq
owner_test = (refl, refl, refl, refl)

handle-passed_on_example :
    (extract_owner hidden_owner "queueConfig" ≡ none)
    ⊎ ((owner : String) × (extract_owner hidden_owner "queueConfig" ≡ some owner)
        × ((broker.get_username (msg_vpn_of (find "msgVpnName" hidden_owner)) owner ≡ none)
            ⊎ ((broker.get_username (msg_vpn_of (find "msgVpnName" hidden_owner)) owner
                  ≡ some not_found)
                × (broker.get_vpn (msg_vpn_of (find "msgVpnName" hidden_owner)) ≡ some not_found))))
handle-passed_on_example = handle-passed_on broker hidden_owner "queueConfig" owner_test.1
