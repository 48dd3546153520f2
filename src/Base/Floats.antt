-- ===== src/Base/Floats.antt =====
-- Go's float64 numbers, each as the operations that it comes from, in their order. No law of exact
-- arithmetic holds of them: what the operations round to is not modelled.
use Prim.Native.Nat.{ℕ}
use jira_bot.Base.Equality.{Text}

-- `whole` is a conversion from an integer, `decimal_literal` a number that JSON gives.
pub data Float64 : Type 0 where
  whole : ℕ → Float64
  decimal_literal : Text → Float64
  plus minus quotient : Float64 → Float64 → Float64
