-- ===== src/Main.antt =====
-- rfrp_main/src/lib.rs and rfrp/src/rfrp_init.rs: what the program starts, and its log level.
-- The command line is clap's and the file is read by std::fs: the content of the file is an argument.
pub mod Starts
use rfrp.Base.{
  ℕ, ◌+◌, Bool, true, false, ◌&&◌, List, [], ◌∷◌, Option, none, some, map, leb, bytes_eq,
  if◌then◌else◌,
}
use rfrp.Base.Bytes.{codes}
use rfrp.Base.Result.{ok, err}
use rfrp.Config.{Text, ConfigInfo, RunningMode, server, client, unknown, get_running_mode}
use rfrp.Config.Validate.{ConfigError, validate, new}

-- How the program goes: it panics, it reports an invalid configuration, it runs `rfrp_server` or
-- `rfrp_client` on a configuration, or it reports a mode that it cannot run.
pub data Course : Type 0 where
  panicked : Course
  invalid : ConfigError → Course
  serves : ConfigInfo → Course
  connects : ConfigInfo → Course
  cannot_run : RunningMode → Course

unfoldable pub rfrp_run : ConfigInfo → Course
rfrp_run configs = elim (get_running_mode configs) [
  | server ↦ serves configs
  | client ↦ connects configs
  | unknown ↦ cannot_run (get_running_mode configs)
]

module _ (from_str : Text → Option ConfigInfo) where
  unfoldable pub rfrp_main : Text → Course
  unfolding rfrp_run
  rfrp_main content = elim (new from_str content) [
    | none ↦ panicked
    | some configs ↦ elim (validate configs) [ err e ↦ invalid e | ok _ ↦ rfrp_run configs ]
  ]

-- log's `LevelFilter`, as far as it is used.
pub data LevelFilter : Type 0 where
  trace debug info warn error : LevelFilter

-- `to_lowercase` where it matters: no letter outside ASCII has a lower case that stands in the words
-- below, so those are left as they are.
unfoldable pub to_lowercase : Text → Text
to_lowercase = map (λ b. if leb b'A' b && leb b b'Z' then b + 32 else b)

unfoldable pub parse_level : Text → Option LevelFilter
parse_level s =
    if bytes_eq s (codes "trace")
    then some trace
    else if bytes_eq s (codes "debug")
    then some debug
    else if bytes_eq s (codes "info")
    then some info
    else if bytes_eq s (codes "warn")
    then some warn
    else if bytes_eq s (codes "error")
    then some error
    else none

-- The level that `init_logging` sets, by the variable RFRP_LOG, if it is set to a text.
unfoldable pub log_level : Option Text → LevelFilter
unfolding to_lowercase parse_level
log_level none = info
log_level (some s) = elim (parse_level (to_lowercase s)) [ none ↦ info | some level ↦ level ]
