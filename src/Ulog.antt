-- ===== src/Ulog.antt =====
-- include/atmi/ulog.hpp and src/ulog.cpp: the class `ulog`, messages for the user log.
pub mod Lines
pub mod Logger
use cpp_atmi.Prelude.{ℕ, ◌++◌, Option, none, some, List, [], ◌∷◌, leb, if◌then◌else◌}
use cpp_atmi.Prelude.Lists.{get_elem?}
use cpp_atmi.Atmi.Texts.{Text, Arg, bytes}

-- `log_levels`
pub data Level : Type 0 where
  error_level warning_level info_level finer_level debug_level : Level

-- The numbers of the enumeration.
abbrev pub value : Level → ℕ
value error_level = 4
value warning_level = 3
value info_level = 2
value finer_level = 1
value debug_level = 0

-- userlog(format, args)
pub record Userlog (W : Type 0) : Type 0 where
  pub userlog : Text → List Arg → W → W

pub record Ulog : Type 0 where
  pub levels : List Text
  pub level : Level

-- `setup_level_names`, of the array LEVELS
unfoldable pub level_names : List Text
level_names = bytes "DEBUG" ∷ bytes "FINER" ∷ bytes "INFO" ∷ bytes "WARNING" ∷ bytes "ERROR" ∷ []

unfoldable pub new : Level → Ulog
unfolding level_names
new level = record { levels = level_names; level = level }

-- The default argument of the constructor.
unfoldable pub new_default : Ulog
unfolding new
new_default = new info_level

unfoldable pub set_log_level : Level → Ulog → Ulog
set_log_level level u = record u { level = level }

unfoldable pub level_of : Ulog → ℕ
level_of u = value u.level

module _ {W : Type 0} ⦃l : Userlog W⦄ where
  -- `none` is an access outside of LEVELS.
  unfoldable pub log : Level → Text → List Arg → Ulog → W → Option W
  log at fmt args u w =
      if leb (value u.level) (value at)
      then (elim (get_elem? u.levels (value at)) [
        | none ↦ none
        | some name ↦ some (l.userlog (name ++ bytes ": " ++ fmt) args w)
      ])
      else some w

  unfoldable pub error : Text → List Arg → Ulog → W → Option W
  unfolding log
  error = log error_level

  unfoldable pub warning : Text → List Arg → Ulog → W → Option W
  unfolding log
  warning = log warning_level

  unfoldable pub info : Text → List Arg → Ulog → W → Option W
  unfolding log
  info = log info_level

  unfoldable pub finer : Text → List Arg → Ulog → W → Option W
  unfolding log
  finer = log finer_level

  unfoldable pub debug : Text → List Arg → Ulog → W → Option W
  unfolding log
  debug = log debug_level
