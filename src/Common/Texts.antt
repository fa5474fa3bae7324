-- ===== src/Common/Texts.antt =====
-- Go's `strings` on native texts.
use Prim.Native.Nat.{◌-◌}
use Prim.Native.String.{String, len, slice}
use mathlib.Core.Bool.{Bool, true, false}
use text.Mathlib.Text.{◌==◌ as str_eq}
pub use text.Mathlib.Text.{starts_with}
use solace_broker_mcp.Common.Tests.{key_eq, leb, if◌then◌else◌}

-- `strings.HasSuffix`.
abbrev pub ends_with : String → String → Bool
ends_with s suffix =
    if leb (len suffix) (len s) then str_eq (slice s (len s - len suffix) (len s)) suffix else false

-- Equality with a literal.
abbrev pub is_text : String → String → Bool
is_text s name = elim (key_eq s name) [ yes _ ↦ true | no _ ↦ false ]
