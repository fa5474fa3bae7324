-- ===== src/Composite/Checks/Bridge.antt =====
-- The checks of internal/composite/bodychecks.go that guard a Kafka bridge's stored credentials: what
-- the bridge is after a write that they let pass.
use solace_broker_mcp.Common.{
  ℕ, String, Bool, true, false, Option, none, some, if◌then◌else◌, get_elem?, ◌≡◌, ◌≢◌, refl, arith,
  subst, ap, ◌∙◌,
}
use solace_broker_mcp.Common.Result.{ok, ◌>>=◌}
use solace_broker_mcp.Common.Json.{
  Json, null, boolean, number, text, array, object, Object, end, field, get,
}
use solace_broker_mcp.Composite.Checks.{
  BodyMode, mode_create, mode_update, mode_replace, first_key, turns_tls_off, retargets,
  check_kafka_retarget, read_enabled, names_scheme, on_scheme, must_be_disabled,
  check_authenticated_bridge_is_disabled, kafka_retarget_fields,
}
use solace_broker_mcp.Composite.Checks.Passed.{has_key-get, first_key-none}

-- Whether a bridge is enabled after a write, from the `enabled` of the body: a create and a replace
-- take an absent one for false, an update leaves the bridge as it was.
pub enabled_after : BodyMode → Bool → Option Json → Bool
enabled_after mode before (some (boolean b)) = b
enabled_after mode_update before enabled = before
enabled_after mode before enabled = false

disabled :
    (mode : BodyMode) (before : Bool) (enabled : Option Json)
    → (read_enabled enabled >>= must_be_disabled mode) ≡ ok tt
    → enabled_after mode before enabled ≡ false
unfolding read_enabled must_be_disabled enabled_after
disabled mode before (some (boolean false)) h = refl
disabled mode_create before (some (boolean true)) h = cc
disabled mode_update before (some (boolean true)) h = cc
disabled mode_replace before (some (boolean true)) h = cc
disabled mode_create before none h = refl
disabled mode_update before none h = cc
disabled mode_replace before none h = refl
disabled mode before (some null) h = cc
disabled mode before (some (number n)) h = cc
disabled mode before (some (text s)) h = cc
disabled mode before (some (array a)) h = cc
disabled mode before (some (object o)) h = cc

on_scheme_disabled :
    (mode : BodyMode) (before : Bool) (body : Object) (scheme : Json)
    → on_scheme mode body (some scheme) ≡ ok tt
    → (s : String) × (scheme ≡ text s)
      × (names_scheme s ≡ true → enabled_after mode before (get "enabled" body) ≡ false)
unfolding on_scheme
on_scheme_disabled mode before body (text s) h = (
  s,
  refl,
  λ e. disabled mode before (get "enabled" body) (
      subst
        (λ b.
          (if b then (read_enabled (get "enabled" body) >>= must_be_disabled mode) else ok tt)
          ≡ ok tt)
        e h),
)
on_scheme_disabled mode before body null h = cc
on_scheme_disabled mode before body (boolean b) h = cc
on_scheme_disabled mode before body (number n) h = cc
on_scheme_disabled mode before body (array a) h = cc
on_scheme_disabled mode before body (object o) h = cc

-- A body that the check lets pass and that states a scheme of authentication states it as a string, and
-- if that is neither empty nor "none" the bridge is disabled after the write, whether it was before.
pub check_authenticated_bridge-disabled :
    (mode : BodyMode) (before : Bool) (body : Object) (scheme : Json)
    → check_authenticated_bridge_is_disabled mode body ≡ ok tt
    → get "authenticationScheme" body ≡ some scheme
    → (s : String) × (scheme ≡ text s)
      × (names_scheme s ≡ true → enabled_after mode before (get "enabled" body) ≡ false)
unfolding check_authenticated_bridge_is_disabled
check_authenticated_bridge-disabled mode before body scheme h e =
    on_scheme_disabled mode before body scheme (subst (λ o. on_scheme mode body o ≡ ok tt) e h)

module _ (equal_fold : String → String → Bool) where
  false_is : false ≢ true
  false_is h = cc

  keeps_tls :
      (body : Object) (k : String) (b : Bool)
      → turns_tls_off equal_fold body ≡ false
      → get k body ≡ some (boolean b)
      → equal_fold k "transportTlsEnabled" ≡ true
      → b ≡ true
  unfolding turns_tls_off get
  keeps_tls end k b h g e = cc
  keeps_tls (field j v o) k b h g e = ground (arith, keeps_tls o k b)

  retargets-cases :
      (body : Object)
      → retargets equal_fold body ≡ ok tt
      → (first_key equal_fold body kafka_retarget_fields ≡ none)
        × (turns_tls_off equal_fold body ≡ false)
  unfolding retargets
  retargets-cases body h = ground arith

  not_create :
      (mode : BodyMode) (body : Object)
      → mode ≢ mode_create
      → check_kafka_retarget equal_fold mode body ≡ ok tt
      → retargets equal_fold body ≡ ok tt
  unfolding check_kafka_retarget
  not_create mode_create body ne h = absurd (ne refl)
  not_create mode_update body ne h = h
  not_create mode_replace body ne h = h

  -- A body of an update or a replace that the check lets pass has no key that names an address of the
  -- bridge, in whatever case it is written, and states TLS, if as a boolean, to be on.
  pub check_kafka_retarget-keeps :
      (mode : BodyMode) (body : Object) (k : String) (v : Json) (i : ℕ) (name : String)
      → mode ≢ mode_create
      → check_kafka_retarget equal_fold mode body ≡ ok tt
      → get k body ≡ some v
      → get_elem? kafka_retarget_fields i ≡ some name
      → (equal_fold k name ≡ false)
        × (equal_fold k "transportTlsEnabled" ≡ true → v ≢ boolean false)
  check_kafka_retarget-keeps mode body k v i name ne h g e =
      let (no_key, tls) = retargets-cases body (not_create mode body ne h) in
      (
        has_key-get equal_fold body k name v g
            (first_key-none equal_fold body kafka_retarget_fields i name no_key e),
        λ f d. absurd (false_is (keeps_tls body k false tls (g ∙ ap some d) f)),
      )
