-- ===== src/Process/Pids.antt =====
-- process/process_scan.go: the processes that /proc lists, and those of a type.
pub mod Listed
use snk_fork_dolphin.Base.{
  ℕ, ◌+◌, ◌++◌, Bool, true, false, not, ◌||◌, ◌&&◌, List, [], ◌∷◌, Option, none, some,
  if◌then◌else◌, is_empty, ◌==◌, leb, map,
}
use snk_fork_dolphin.Base.Chars.{is_space}
use snk_fork_dolphin.Base.Decimal.{atoi}
use snk_fork_dolphin.Base.Int.{ℤ, pos}
use snk_fork_dolphin.Base.Path.{split}
use snk_fork_dolphin.Base.Table.{Table, lookup}
use snk_fork_dolphin.Base.Text.{Text, codes, text_eq}
use snk_fork_dolphin.Types.Fault.{Errors, unknown_project_type, empty_name, no_process, outside}

-- `Typ`
pub data Typ : Type 0 where
  typ_pattern typ_exe : Typ

-- `PidType`; the regular expression stands as its text.
pub record PidType : Type 0 where
  pub typ : Typ
  pub args : Text

-- An entry of /proc, with what `cmdline` of a directory holds; `none` if it cannot be read.
pub data Entry : Type 0 where
  directory : Text → Option Text → Entry
  file : Text → Entry

-- `strings.FieldsFunc` by a test, with the field that is being read.
unfoldable pub fields_func : (ℕ → Bool) → Text → Text → List Text
fields_func p cur [] = if is_empty cur then [] else cur ∷ []
fields_func p cur (c ∷ s) =
    let rest = fields_func p [] s in
    let here = if is_empty cur then rest else cur ∷ rest in
    let longer = fields_func p (cur ++ c ∷ []) s in if p c then here else longer

-- `exe`: the name of the program, or the whole command line. Of an executable the command line is
-- read to its first zero byte.
unfoldable pub exe_of : Typ → Text → List Text
unfolding fields_func
exe_of typ_pattern cmdline = cmdline ∷ []
exe_of typ_exe cmdline = elim (split 0 cmdline) [
  | [] ↦ []
  | part ∷ _ ↦ fields_func (λ c. is_space c || c == b':') [] part
]

-- The table `projectTypeCfg`.
abbrev pub project_type_cfg : Table PidType
project_type_cfg =
    (codes "java", record { typ = typ_pattern; args = codes "Djava.apps.prog" })
    ∷ (codes "nginx", record { typ = typ_pattern; args = codes "nginx: master process" })
    ∷ (
      codes "es",
      record { typ = typ_pattern; args = codes "org.elasticsearch.bootstrap.Elasticsearch" },
    )
    ∷ (codes "rabbitmq", record { typ = typ_pattern; args = codes "-rabbit plugins_expand_dir" })
    ∷ (codes "redis", record { typ = typ_exe; args = codes "redis-server" })
    ∷ []

-- `strings.ToLower` of one byte.
abbrev pub lower_byte : ℕ → ℕ
lower_byte c = if leb b'A' c && leb c b'Z' then c + 32 else c

-- The switch of `GetAllPidsOfType`.
unfoldable pub type_name : Text → Option Text
type_name typ =
    if text_eq typ (codes "java") || text_eq typ (codes "nginx") || text_eq typ (codes "redis")
    then some typ
    else if text_eq typ (codes "es") || text_eq typ (codes "elasticsearch")
    then some (codes "es")
    else if text_eq typ (codes "mq") || text_eq typ (codes "rabbitmq")
    then some (codes "rabbitmq")
    else none

-- Regular expressions: whether one compiles, and whether it matches a text.
pub record Regexps : Type 0 where
  pub compiles : Text → Bool
  pub matches : Text → Text → Bool

-- Signals to processes, by the errors they return.
abbrev pub Kill : Type 0
Kill = ℤ → Errors

module _ (re : Regexps) where
  -- `matchCmdline`
  unfoldable pub match_cmdline : Text → PidType → Bool
  unfolding exe_of
  match_cmdline cmdline pt = elim (exe_of pt.typ cmdline) [
    | [] ↦ false
    | exe ∷ _ ↦ re.matches pt.args exe
  ]

  -- The walk of `getPids` over the entries of /proc, in their order: a directory is never entered,
  -- and a file ends the walk, since for a file `SkipDir` leaves its directory.
  unfoldable pub get_pids : Option PidType → List Entry → List ℤ
  unfolding match_cmdline
  get_pids pt [] = []
  get_pids none (file name ∷ es) = pos 0 ∷ []
  get_pids (some pt) (file name ∷ es) = []
  get_pids none (directory name cmdline ∷ es) = elim (atoi name) [
    | none ↦ get_pids none es
    | some pid ↦ pid ∷ get_pids none es
  ]
  get_pids (some pt) (directory name none ∷ es) = get_pids (some pt) es
  get_pids (some pt) (directory name (some cmdline) ∷ es) =
      let rest = get_pids (some pt) es in
      elim (atoi name) [
        | none ↦ rest
        | some pid ↦ if match_cmdline cmdline pt then pid ∷ rest else rest
      ]

  -- `GetAllPids`
  unfoldable pub get_all_pids : List Entry → List ℤ
  get_all_pids es = get_pids none es

  -- `Pgrep`; an expression that does not compile is an error.
  unfoldable pub pgrep : Text → Bool → List Entry → List ℤ × Errors
  unfolding get_pids
  pgrep name match_bin_only es =
      if re.compiles name
      then (
        get_pids
            (some (record { typ = if match_bin_only then typ_exe else typ_pattern; args = name }))
            es,
        [],
      )
      else ([], outside 0 ∷ [])

  -- `GetAllPidsOfType`
  unfoldable pub get_all_pids_of_type : Text → List Entry → List ℤ × Errors
  unfolding type_name lookup
  get_all_pids_of_type typ es = elim (type_name (map lower_byte typ)) [
    | none ↦ ([], unknown_project_type ∷ [])
    | some name ↦ elim (lookup name project_type_cfg) [
      | none ↦ ([], unknown_project_type ∷ [])
      | some pt ↦ elim pt.typ [
        | typ_pattern ↦ pgrep pt.args false es
        | typ_exe ↦ pgrep (codes "^[^" ++ 0 ∷ codes "]*/?" ++ pt.args ++ codes "$") true es
      ]
    ]
  ]

  -- The loop of `PKill`.
  unfoldable pub kill_all : Kill → List ℤ → Errors
  kill_all kill [] = []
  kill_all kill (pid ∷ pids) = kill pid ++ kill_all kill pids

  -- `PKill`
  unfoldable pub pkill : Kill → Text → Bool → List Entry → Errors
  unfolding pgrep kill_all
  pkill kill name match_bin_only es =
      let (pids, err) = pgrep name match_bin_only es in
      if is_empty name
      then empty_name ∷ []
      else if not (is_empty err)
      then err
      else if is_empty pids
      then no_process ∷ []
      else kill_all kill pids
