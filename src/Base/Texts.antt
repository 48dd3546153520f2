-- ===== src/Base/Texts.antt =====
-- Texts as lists of code points: literals, and what the code uses of Go's `strings`.
use Prim.Native.Char.{code}
use Prim.Native.String.{String}
use mathlib.Core.List.{[], ◌∷◌}
use jira_bot.Base.Equality.{Text}

abbrev pub codes : String → Text
codes String.[] = []
codes (String.◌∷◌ c s) = code c ∷ codes s
