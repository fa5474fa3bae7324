-- ===== src/Composite/Single/Tests.antt =====
-- Runs of the calls of a step.
use solace_broker_mcp.Common.{ℕ, zero, suc, [], ◌∷◌, ◌≡◌, refl, ◌⊎◌, key_eq}
use solace_broker_mcp.Common.Result.{Result, ok, err}
use solace_broker_mcp.Common.Json.{text, Object, end, field, get, delete}
use solace_broker_mcp.Composite.Single.{
  ClientError, semp_status, strip_key, strip_keys, retry_without_optional_args, call_again,
  after_call, run_single,
}
use solace_broker_mcp.Composite.Single.Repeated.{Once, Twice, run_single-OnceOrTwice}

-- A broker that does not know an argument of the first call.
abbrev old_broker : ℕ → Object → Result ClientError Object
old_broker zero args = err (semp_status 400)
old_broker (suc n) args = ok end

abbrev asked : Object
asked = field "msgVpnName" (text "default") (field "opt" (text "1") end)

second_test :
    (run_single old_broker ("opt" ∷ []) asked).calls
    ≡ asked ∷ field "msgVpnName" (text "default") end ∷ []
unfolding run_single after_call call_again retry_without_optional_args strip_keys strip_key get
    delete key_eq
second_test = refl

run_single-OnceOrTwice_example :
    Once old_broker ("opt" ∷ []) asked (run_single old_broker ("opt" ∷ []) asked)
    ⊎ Twice old_broker ("opt" ∷ []) asked (run_single old_broker ("opt" ∷ []) asked)
unfolding get key_eq
run_single-OnceOrTwice_example =
    run_single-OnceOrTwice old_broker ("opt" ∷ []) asked (refl, (refl, tt))
