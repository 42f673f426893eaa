-- ===== src/Types/Externals.antt =====
-- What the modelled code calls and this repository does not hold: floating-point arithmetic, and the
-- label selectors of `we.com/jiabiao/common/labels`.
use snk_fork_dolphin.Base.{ℕ, Bool, Option}
use snk_fork_dolphin.Base.Int.{ℤ}
use snk_fork_dolphin.Base.Text.{Text}
use snk_fork_dolphin.Base.Table.{Table}

pub record Externals : Type 1 where
  pub Float64 : Type 0
  pub zero_float : Float64
  -- `uint64(f * float64(n))`
  pub scale : Float64 → ℕ → ℕ
  -- `int(math.Ceil(float64(n) * f))`
  pub ceil_share : ℤ → Float64 → ℤ
  -- `f > 1 || f < 0`
  pub out_of_unit : Float64 → Bool
  pub LabelSelector : Type 0
  -- `labels.Parse`; `none` is its error.
  pub parse_labels : Text → Option LabelSelector
  -- `Selector.Matches`
  pub matches : LabelSelector → Table Text → Bool
