-- ===== src/Owner/Check.antt =====
-- No write with an owner passes unchecked.
use solace_broker_mcp.Common.{
  ◌≡◌, ◌⊎◌, refl, sym, ◌∙◌, ap, String, [], ◌∷◌, Option, none, some, arith, inl, inr, Option-cases,
}
use solace_broker_mcp.Common.Assoc.{Assoc, find}
use solace_broker_mcp.Owner.{
  Param, owner_in, owner_text, scan_owner, extract_owner, msg_vpn_of, ReadError, not_found,
  inconclusive, passed_on, Broker, after_vpn, after_username, handle,
}

scan_owner-none :
    (config_param : String) (params : Assoc Param) (name : String) (p : Param)
    → scan_owner config_param params ≡ none
    → find name params ≡ some p
    → (config_param ≡ name) ⊎ (owner_in (some p) ≡ none)
unfolding scan_owner find
scan_owner-none config_param [] name p h f = absurd (cc f)
scan_owner-none config_param ((k, q) ∷ rest) name p h f =
    ground (arith, scan_owner-none config_param rest name p)

first_of-none :
    (a b c : Option String)
    → (elim a as (λ _. Option String) [
      | some o ↦ some o
      | none ↦ elim b as (λ _. Option String) [ some o ↦ some o | none ↦ c ]
    ])
      ≡ none
    → (a ≡ none) × (b ≡ none) × (c ≡ none)
first_of-none none none c h = (refl, refl, h)
first_of-none none (some o) c h = absurd (cc h)
first_of-none (some o) b c h = absurd (cc h)

-- If `extractOwner` finds no owner, there is none: no parameter is an object with a non-empty
-- string as its owner, whatever the parameter is called, and the parameter `owner` is no
-- non-empty string.
pub extract_owner-none :
    (params : Assoc Param) (config_param name : String) (p : Param)
    → extract_owner params config_param ≡ none
    → find name params ≡ some p
    → (owner_in (some p) ≡ none) × (owner_text (find "owner" params) ≡ none)
unfolding extract_owner
extract_owner-none params config_param name p h f =
    let (a, b, c) =
      first_of-none (owner_in (find config_param params)) (owner_text (find "owner" params))
        (scan_owner config_param params) h in
    (
      elim (scan_owner-none config_param params name p c f) [
        | inl same ↦ ap owner_in (sym (ap (λ k. find k params) same ∙ f)) ∙ a
        | inr absent ↦ absent
      ],
      b,
    )

after_vpn-passed_on :
    (owner msg_vpn : String) (r : Option ReadError)
    → after_vpn owner msg_vpn r ≡ passed_on
    → r ≡ some not_found
unfolding after_vpn
after_vpn-passed_on owner msg_vpn none h = absurd (cc h)
after_vpn-passed_on owner msg_vpn (some not_found) h = refl
after_vpn-passed_on owner msg_vpn (some inconclusive) h = absurd (cc h)

after_username-passed_on :
    (broker : Broker) (owner msg_vpn : String) (r : Option ReadError)
    → after_username broker owner msg_vpn r ≡ passed_on
    → (r ≡ none) ⊎ ((r ≡ some not_found) × (broker.get_vpn msg_vpn ≡ some not_found))
unfolding after_username
after_username-passed_on broker owner msg_vpn none h = inl refl
after_username-passed_on broker owner msg_vpn (some inconclusive) h = absurd (cc h)
after_username-passed_on broker owner msg_vpn (some not_found) h =
    inr (refl, after_vpn-passed_on owner msg_vpn (broker.get_vpn msg_vpn) h)

-- A write is passed on to the tool only if no owner is found in its parameters, or the broker
-- knows the owner, or the broker answers NOT_FOUND for the owner and for the Message VPN itself:
-- never after a read that failed in another way.
pub handle-passed_on :
    (broker : Broker) (params : Assoc Param) (config_param : String)
    → handle broker params config_param ≡ passed_on
    → (extract_owner params config_param ≡ none)
      ⊎ ((owner : String) × (extract_owner params config_param ≡ some owner)
          × ((broker.get_username (msg_vpn_of (find "msgVpnName" params)) owner ≡ none)
              ⊎ ((broker.get_username (msg_vpn_of (find "msgVpnName" params)) owner
                    ≡ some not_found)
                  × (broker.get_vpn (msg_vpn_of (find "msgVpnName" params)) ≡ some not_found))))
unfolding handle
handle-passed_on broker params config_param h =
    elim (Option-cases (extract_owner params config_param)) [
      | inl e ↦ inl e
      | inr (owner, e) ↦
          let msg_vpn : String = msg_vpn_of (find "msgVpnName" params) in
          inr (
            owner,
            e,
            after_username-passed_on broker owner msg_vpn (broker.get_username msg_vpn owner)
                (cc (e, h)),
          )
    ]
