-- ===== src/Base/Decimal.antt =====
-- Decimal numbers: how `fmt.Sprintf("%v", n)` writes one that is not negative, and `strconv.Atoi`.
use Prim.Native.Nat.{ℕ, zero, suc, ◌+◌, ◌-◌, ◌*◌, ◌/◌, ◌%◌}
use mathlib.Core.Bool.{Bool, true, false, ◌&&◌}
use mathlib.Core.List.{[], ◌∷◌, ◌++◌}
use mathlib.Core.Option.{Option, none, some}
use snk_fork_dolphin.Base.Int.{ℤ, pos, sub_ℕ}
use snk_fork_dolphin.Base.Tests.{ltb, leb, ◌==◌, if◌then◌else◌}
use snk_fork_dolphin.Base.Text.{Text}

-- The digits, on fuel; a number has no more digits than its value.
unfoldable pub digits : ℕ → ℕ → Text
digits zero n = []
digits (suc fuel) n =
    let rest = digits fuel (n / 10) ++ (b'0' + n % 10) ∷ [] in
    if ltb n 10 then (b'0' + n) ∷ [] else rest

unfoldable pub decimal : ℕ → Text
unfolding digits
decimal n = digits (suc n) n

-- The value of decimal digits, where `acc` is what is read.
unfoldable pub value_of : ℕ → Text → Option ℕ
value_of acc [] = some acc
value_of acc (c ∷ s) =
    let rest = value_of (acc * 10 + (c - b'0')) s in if leb b'0' c && leb c b'9' then rest else none

-- The digits after a sign, within the bounds of an int64.
unfoldable pub signed : Bool → Text → Option ℤ
unfolding value_of
signed negative [] = none
signed negative (c ∷ s) = elim (value_of 0 (c ∷ s)) [
  | none ↦ none
  | some n ↦
      if negative
      then if ltb 9223372036854775808 n then none else some (sub_ℕ 0 n)
      else if ltb 9223372036854775807 n
      then none
      else some (pos n)
]

-- `strconv.Atoi`
unfoldable pub atoi : Text → Option ℤ
unfolding signed
atoi [] = none
atoi (c ∷ s) =
    if c == b'-' then signed true s else if c == b'+' then signed false s else signed false (c ∷ s)
