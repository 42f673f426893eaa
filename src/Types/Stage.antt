-- ===== src/Types/Stage.antt =====
-- types/namespace.go: the stages of the release process and their names. A `Stage` is an int32,
-- written here as an integer.
pub mod Names
use snk_fork_dolphin.Base.{List, [], ◌∷◌, Option, none, some, if◌then◌else◌}
use snk_fork_dolphin.Base.Int.{ℤ, pos, eqb_ℤ}
use snk_fork_dolphin.Base.Text.{Text, codes, text_eq}

abbrev pub Stage : Type 0
Stage = ℤ

abbrev pub unknown_stage : Stage
unknown_stage = pos 0

abbrev pub dev : Stage
dev = pos 1

abbrev pub test : Stage
test = pos 2

abbrev pub intergration : Stage
intergration = pos 3

abbrev pub qa : Stage
qa = pos 4

abbrev pub uat : Stage
uat = pos 5

abbrev pub production : Stage
production = pos 6

-- The map `stages`, in one of the orders in which Go may run through it.
abbrev pub stages : List (Stage × Text)
stages =
    (dev, codes "dev")
    ∷ (test, codes "test")
    ∷ (qa, codes "qa")
    ∷ (intergration, codes "int")
    ∷ (uat, codes "uat")
    ∷ (production, codes "prd")
    ∷ (unknown_stage, codes "unknown")
    ∷ []

unfoldable pub stage_lookup : List (Stage × Text) → Stage → Option Text
stage_lookup [] s = none
stage_lookup ((k, v) ∷ m) s = if eqb_ℤ k s then some v else stage_lookup m s

-- `Stage.String`
unfoldable pub to_string : Stage → Text
unfolding stage_lookup
to_string s = elim (stage_lookup stages s) [ some st ↦ st | none ↦ codes "unknown" ]

-- The loop of `ParseStage`, over the map in the order given; `none` is the error.
unfoldable pub parse_in : List (Stage × Text) → Text → Option Stage
parse_in [] st = none
parse_in ((k, v) ∷ m) st = if text_eq v st then some k else parse_in m st

unfoldable pub parse_stage : Text → Option Stage
unfolding parse_in
parse_stage = parse_in stages
