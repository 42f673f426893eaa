-- ===== src/Types/Stage/Names.antt =====
-- The names of the stages and their parsing (types/namespace.go).
use snk_fork_dolphin.Base.{
  All, zero, suc, ◌≡◌, refl, arith, List, [], ◌∷◌, some, Bool-cases, inl, inr,
}
use snk_fork_dolphin.Base.Int.{pos, negsuc, ◌≤ℤ◌}
use snk_fork_dolphin.Base.Text.{Text, text_eq, text_eq_iff}
use snk_fork_dolphin.Types.Stage.{
  Stage, stages, stage_lookup, to_string, parse_in, parse_stage, unknown_stage, production,
}

-- The name of each of the seven stages is parsed into the stage.
pub parse_stage-to_string :
    (s : Stage) → unknown_stage ≤ℤ s → s ≤ℤ production → parse_stage (to_string s) ≡ some s
unfolding parse_stage to_string parse_in stage_lookup text_eq
parse_stage-to_string (pos zero) low high = refl
parse_stage-to_string (pos (suc zero)) low high = refl
parse_stage-to_string (pos (suc (suc zero))) low high = refl
parse_stage-to_string (pos (suc (suc (suc zero)))) low high = refl
parse_stage-to_string (pos (suc (suc (suc (suc zero))))) low high = refl
parse_stage-to_string (pos (suc (suc (suc (suc (suc zero)))))) low high = refl
parse_stage-to_string (pos (suc (suc (suc (suc (suc (suc zero))))))) low high = refl
parse_stage-to_string (pos (suc (suc (suc (suc (suc (suc (suc n)))))))) low high =
    absurd (omega arith)
parse_stage-to_string (negsuc n) low high = absurd (omega arith)

named : All (λ e. to_string e.0 ≡ e.1) stages
unfolding to_string stage_lookup
named = (refl, (refl, (refl, (refl, (refl, (refl, (refl, tt)))))))

parse_in-named :
    (m : List (Stage × Text)) (st : Text) (s : Stage)
    → All (λ e. to_string e.0 ≡ e.1) m
    → parse_in m st ≡ some s
    → to_string s ≡ st
unfolding parse_in
parse_in-named [] st s a e = cc
parse_in-named ((k, v) ∷ m) st s a e = elim (Bool-cases (text_eq v st)) [
  | inl same ↦
      let found : v ≡ st = (text_eq_iff v st).0 same in
      let stage : k ≡ s = ground arith in cc (a.0, found, stage)
  | inr other ↦ parse_in-named m st s a.1 (ground arith)
]

-- A text that is parsed into a stage is the name of the stage.
pub to_string-parse_stage : (st : Text) (s : Stage) → parse_stage st ≡ some s → to_string s ≡ st
unfolding parse_stage
to_string-parse_stage st s e = parse_in-named stages st s named e
