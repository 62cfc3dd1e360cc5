-- ===== src/Prelude/Texts.antt =====
-- Texts: Go's strings, compared as wholes, and `strings.Contains` of a slash.
pub use Prim.Native.String.{String}
use text.Mathlib.Text.{◌==◌}
use mathlib.Core.Bool.{Bool, true, false}
use bacnet_ip_rest_proxy.Prelude.Tests.{if◌then◌else◌}

abbrev pub is_text : String → String → Bool
is_text a b = a == b

unfoldable pub has_slash : String → Bool
has_slash String.[] = false
has_slash (String.◌∷◌ c s) =
    let rest = has_slash s in if (String.◌∷◌ c String.[]) == "/" then true else rest
