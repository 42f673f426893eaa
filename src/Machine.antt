-- ===== src/Machine.antt =====
-- types/hostinfo/info.go: the machine file /etc/machine-id, which holds the id of the host and its
-- stage, one on a line.
pub mod StageLine
use snk_fork_dolphin.Base.{
  ◌++◌, Bool, true, false, not, ◌&&◌, List, [], ◌∷◌, Option, none, some, if◌then◌else◌, is_empty,
}
use snk_fork_dolphin.Base.Chars.{trim, is_white}
use snk_fork_dolphin.Base.Path.{split, join}
use snk_fork_dolphin.Base.Text.{Text, codes, has_prefix, trim_prefix}
use snk_fork_dolphin.Types.Fault.{Errors, outside, unknown_env, invalid_host_id}
use snk_fork_dolphin.Types.Stage.{Stage, unknown_stage, to_string, parse_stage}

-- The machine file, `none` if it cannot be read, whether it can be written, and the variable `ENV`.
pub record Machine : Type 0 where
  pub content : Option Text
  pub writable : Bool
  pub env : Text

-- `ioutil.WriteFile` of the machine file.
unfoldable pub write_file : Text → Machine → Machine × Errors
write_file c w = if w.writable then (record w { content = some c }, []) else (w, outside 1 ∷ [])

abbrev pub trim_space : Text → Text
trim_space s = trim is_white s

-- The loop of `overWriteStage`: the lines, trimmed, without those that have the prefix.
unfoldable pub other_lines : Text → List Text → List Text
other_lines prefix [] = []
other_lines prefix (line ∷ lines) =
    let rest = other_lines prefix lines in
    if has_prefix (trim_space line) prefix then rest else trim_space line ∷ rest

-- `overWriteStage`
unfoldable pub over_write_stage : Stage → Machine → Machine × Errors
unfolding other_lines write_file
over_write_stage stage w = elim w.content [
  | none ↦ (w, outside 0 ∷ [])
  | some content ↦
      write_file
        (join b'\n' (
          other_lines (codes "stage=") (split b'\n' content)
          ++ (codes "stage=" ++ to_string stage) ∷ []))
        w
]

-- The loop that looks for the first line with the prefix: what stands behind it.
unfoldable pub find_line : Text → List Text → Option Text
find_line prefix [] = none
find_line prefix (line ∷ lines) =
    if has_prefix (trim_space line) prefix
    then some (trim_prefix (trim_space line) prefix)
    else find_line prefix lines

-- `types.ParseStage` with its error, which comes with the unknown stage.
unfoldable pub stage_of : Text → Stage × Errors
stage_of s = elim (parse_stage s) [
  | none ↦ (unknown_stage, unknown_env ∷ [])
  | some stage ↦ (stage, [])
]

-- `getEnv`; an error in writing goes to the log.
unfoldable pub get_env : Machine → Machine × Stage × Errors
unfolding find_line write_file stage_of
get_env w = elim w.content [
  | none ↦ (w, unknown_stage, outside 0 ∷ [])
  | some content ↦ elim (find_line (codes "stage=") (split b'\n' content)) [
    | some env_str ↦ let (stage, err) = stage_of env_str in (w, stage, err)
    | none ↦
        if is_empty w.env
        then (w, unknown_stage, [])
        else (let (w', _) =
              write_file (trim_space content ++ codes "\n" ++ codes "stage=" ++ w.env) w in
            let (stage, err) = stage_of w.env in (w', stage, err))
  ]
]

-- `hostID` as the second branch of `getHostID` finds it, and whether the file is written anew.
unfoldable pub read_host_id : Text → Machine → Machine × Text × Errors
unfolding find_line write_file
read_host_id content w =
    let found : Text = elim (find_line (codes "hostID=") (split b'\n' content)) [
      | none ↦ []
      | some id ↦ id
    ] in
    let old = trim_space content in
    let (w', err) = write_file (codes "hostID=" ++ old) w in
    if is_empty found && not (is_empty content) then (w', old, err) else (w, found, [])

-- `getHostID`, where `fresh` is a new UUID and `parse_uuid` gives the normal form of one.
unfoldable pub get_host_id : (Text → Option Text) → Text → Bool → Machine → Machine × Text × Errors
unfolding read_host_id write_file
get_host_id parse_uuid fresh generate w =
    let content : Text = elim w.content [ none ↦ [] | some c ↦ c ] in
    let unread : Errors = elim w.content [ none ↦ outside 0 ∷ [] | some c ↦ [] ] in
    let (w1, err1) = write_file (codes "hostID=" ++ fresh) w in
    let (w2, id, err2) = read_host_id content w in
    if not (is_empty unread) && generate
    then (w1, if is_empty err1 then fresh else [], err1)
    else elim (parse_uuid id) [
      | none ↦ (w2, id, invalid_host_id ∷ [])
      | some uid ↦ (w2, uid, if is_empty err2 then unread else err2)
    ]
