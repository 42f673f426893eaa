-- ===== src/Machine/StageLine.antt =====
-- The machine file of types/hostinfo/info.go after `overWriteStage`.
use snk_fork_dolphin.Base.{
  zero, suc, ◌≡◌, ◌∙◌, refl, sym, ap, ◌++◌, Bool, true, false, List, [], ◌∷◌, Option, none, some,
  arith, is_empty, All, Bool-cases, inl, inr,
}
use snk_fork_dolphin.Base.Chars.{trim, trim_left, trim_right, is_white, trim_again, Lacks-trim}
use snk_fork_dolphin.Base.Int.{pos, negsuc, ◌≤ℤ◌}
use snk_fork_dolphin.Base.Path.{split, join, All-split, split-join-All}
use snk_fork_dolphin.Base.Text.{
  Text, codes, has_prefix, Lacks, has_prefix-append, trim_prefix-append,
}
use snk_fork_dolphin.Machine.{
  Machine, write_file, trim_space, other_lines, over_write_stage, find_line, stage_of, get_env,
  read_host_id, get_host_id,
}
use snk_fork_dolphin.Types.Fault.{Errors, invalid_host_id}
use snk_fork_dolphin.Types.Stage.{Stage, unknown_stage, production, to_string, stage_lookup}
use snk_fork_dolphin.Types.Stage.Names.{parse_stage-to_string}

-- A line as the file has it after the stage is written: trimmed, without a line break.
abbrev IsLine : Text → Type 0
IsLine l = (trim_space l ≡ l) × Lacks b'\n' l

All-other_lines :
    (prefix : Text) (lines : List Text)
    → All (Lacks b'\n') lines
    → All IsLine (other_lines prefix lines)
unfolding other_lines
All-other_lines prefix [] h = tt
All-other_lines prefix (l ∷ lines) h = elim (Bool-cases (has_prefix (trim_space l) prefix)) [
  | inl drops ↦ rw drops (All-other_lines prefix lines h.1)
  | inr stays ↦
      rw stays
        ((trim_again is_white l, Lacks-trim is_white b'\n' l h.0), All-other_lines prefix lines h.1)
]

-- Of the lines that are kept none has the prefix, and those with another prefix are as before.
find_line-other_lines :
    (prefix : Text) (lines rest : List Text)
    → find_line prefix (other_lines prefix lines ++ rest) ≡ find_line prefix rest
unfolding other_lines find_line
find_line-other_lines prefix [] rest = refl
find_line-other_lines prefix (l ∷ lines) rest =
    elim (Bool-cases (has_prefix (trim_space l) prefix)) [
      | inl drops ↦ rw drops (find_line-other_lines prefix lines rest)
      | inr stays ↦
          rw stays
            (ground (arith, trim_again is_white l, stays, find_line-other_lines prefix lines rest))
    ]

module _ (p q : Text) (apart : (l : Text) → has_prefix l q ≡ true → has_prefix l p ≡ false) where
  find_line-apart :
      (lines rest : List Text)
      → find_line p (other_lines q lines ++ rest) ≡ find_line p (lines ++ rest)
  unfolding other_lines find_line
  find_line-apart [] rest = refl
  find_line-apart (l ∷ lines) rest = elim (Bool-cases (has_prefix (trim_space l) q)) [
    | inl drops ↦ rw (drops, apart (trim_space l) drops) (find_line-apart lines rest)
    | inr stays ↦ rw stays (ground (arith, trim_again is_white l, find_line-apart lines rest))
  ]

host_apart :
    (l : Text) → has_prefix l (codes "stage=") ≡ true → has_prefix l (codes "hostID=") ≡ false
unfolding has_prefix
host_apart [] h = refl
host_apart (c ∷ l) h = ground arith

abbrev stage_line : Stage → Text
stage_line s = codes "stage=" ++ to_string s

stage_line-IsLine : (s : Stage) → unknown_stage ≤ℤ s → s ≤ℤ production → IsLine (stage_line s)
unfolding to_string stage_lookup trim trim_left trim_right is_white
stage_line-IsLine (pos zero) low high = (refl, ground arith)
stage_line-IsLine (pos (suc zero)) low high = (refl, ground arith)
stage_line-IsLine (pos (suc (suc zero))) low high = (refl, ground arith)
stage_line-IsLine (pos (suc (suc (suc zero)))) low high = (refl, ground arith)
stage_line-IsLine (pos (suc (suc (suc (suc zero))))) low high = (refl, ground arith)
stage_line-IsLine (pos (suc (suc (suc (suc (suc zero)))))) low high = (refl, ground arith)
stage_line-IsLine (pos (suc (suc (suc (suc (suc (suc zero))))))) low high = (refl, ground arith)
stage_line-IsLine (pos (suc (suc (suc (suc (suc (suc (suc n)))))))) low high = absurd (omega arith)
stage_line-IsLine (negsuc n) low high = absurd (omega arith)

All-lines :
    (ls : List Text) (l : Text) → All IsLine ls → IsLine l → All (Lacks b'\n') (ls ++ l ∷ [])
All-lines [] l h k = (k.1, tt)
All-lines (m ∷ ls) l h k = (h.0.1, All-lines ls l h.1 k)

split-lines :
    (ls : List Text) (l : Text)
    → All (Lacks b'\n') (ls ++ l ∷ [])
    → split b'\n' (join b'\n' (ls ++ l ∷ [])) ≡ ls ++ l ∷ []
split-lines [] l h = split-join-All b'\n' l [] h
split-lines (m ∷ ls) l h = split-join-All b'\n' m (ls ++ l ∷ []) h

find_line-append :
    (p : Text) (ls rest : List Text) (found : Text)
    → find_line p ls ≡ some found
    → find_line p (ls ++ rest) ≡ some found
unfolding find_line
find_line-append p [] rest found e = cc
find_line-append p (l ∷ ls) rest found e = ground (arith, find_line-append p ls rest found, e)

-- The id that `getHostID` gives for a line of the file, with its error.
host_id_of : (Text → Option Text) → Text → Text × Errors
host_id_of parse_uuid id = elim (parse_uuid id) [
  | none ↦ (id, invalid_host_id ∷ [])
  | some uid ↦ (uid, [])
]

reads_id :
    (parse_uuid : Text → Option Text) (fresh id : Text) (generate : Bool) (m : Machine) (c : Text)
    → m.content ≡ some c
    → find_line (codes "hostID=") (split b'\n' c) ≡ some id
    → is_empty id ≡ false
    → ((get_host_id parse_uuid fresh generate m).1 ≡ (host_id_of parse_uuid id).0)
      × ((get_host_id parse_uuid fresh generate m).2 ≡ (host_id_of parse_uuid id).1)
unfolding get_host_id read_host_id host_id_of
reads_id parse_uuid fresh id generate m c read found filled = ground (arith, read, found, filled)

module _ (w : Machine) (content : Text) (s : Stage) (read : w.content ≡ some content)
    (can : w.writable ≡ true) (low : unknown_stage ≤ℤ s) (high : s ≤ℤ production) where
  abbrev kept : List Text
  kept = other_lines (codes "stage=") (split b'\n' content)

  written :
      over_write_stage s w
      ≡ (record w { content = some (join b'\n' (kept ++ stage_line s ∷ [])) }, [])
  unfolding over_write_stage write_file
  written = ground (arith, read, can)

  new_lines : split b'\n' (join b'\n' (kept ++ stage_line s ∷ [])) ≡ kept ++ stage_line s ∷ []
  new_lines = split-lines kept (stage_line s) (
      All-lines kept (stage_line s)
        (All-other_lines (codes "stage=") (split b'\n' content) (All-split b'\n' content))
        (stage_line-IsLine s low high))

  stage_found : find_line (codes "stage=") (stage_line s ∷ []) ≡ some (to_string s)
  unfolding find_line
  stage_found =
      rw ((stage_line-IsLine s low high).0, has_prefix-append (codes "stage=") (to_string s))
        (ap some (trim_prefix-append (codes "stage=") (to_string s)))

  line_found :
      (p : Text) (found : Option Text)
      → find_line p (kept ++ stage_line s ∷ []) ≡ found
      → find_line p (split b'\n' (join b'\n' (kept ++ stage_line s ∷ []))) ≡ found
  line_found p found e = ap (find_line p) new_lines ∙ e

  same_stage : find_line (codes "stage=") (kept ++ stage_line s ∷ []) ≡ some (to_string s)
  same_stage =
      find_line-other_lines (codes "stage=") (split b'\n' content) (stage_line s ∷ []) ∙ stage_found

  same_host :
      (id : Text)
      → find_line (codes "hostID=") (split b'\n' content) ≡ some id
      → find_line (codes "hostID=") (kept ++ stage_line s ∷ []) ≡ some id
  same_host id found =
      find_line-apart (codes "hostID=") (codes "stage=") host_apart (split b'\n' content)
        (stage_line s ∷ [])
      ∙ find_line-append (codes "hostID=") (split b'\n' content) (stage_line s ∷ []) id found

  -- After a stage has been written into a machine file that can be read and written, there is no
  -- error, and the stage that is read is that stage, whatever stages and lines the file had.
  pub get_env-over_write_stage :
      ((over_write_stage s w).1 ≡ [])
      × (get_env (over_write_stage s w).0 ≡ ((over_write_stage s w).0, s, []))
  unfolding get_env stage_of
  get_env-over_write_stage = rw written (
    refl,
    ground (arith, line_found (codes "stage=") _ same_stage, parse_stage-to_string s low high),
  )

  -- The id of the host, where the file had one, is the same before and after a stage is written.
  pub get_host_id-over_write_stage :
      (parse_uuid : Text → Option Text) (fresh id : Text) (generate : Bool)
      → find_line (codes "hostID=") (split b'\n' content) ≡ some id
      → is_empty id ≡ false
      → let (w1, before, err) = get_host_id parse_uuid fresh generate w in
        let (w2, after, err') = get_host_id parse_uuid fresh generate (over_write_stage s w).0 in
        (after ≡ before) × (err' ≡ err)
  get_host_id-over_write_stage parse_uuid fresh id generate found filled =
      let (before, err) = reads_id parse_uuid fresh id generate w content read found filled in
      let (after, err') =
        reads_id parse_uuid fresh id generate _ _ refl
          (line_found (codes "hostID=") _ (same_host id found)) filled in
      rw written (after ∙ sym before, err' ∙ sym err)
