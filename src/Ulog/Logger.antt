-- ===== src/Ulog/Logger.antt =====
-- src/ulog_logger.cpp: the class `ulog_logger`. Its base class and its members are declared in a
-- header that the repository has not: their values are arguments here.
use cpp_atmi.Prelude.{◌-◌, ◌++◌, Option, none, some, List, [], ◌∷◌, leb, if◌then◌else◌}
use cpp_atmi.Prelude.Lists.{take, replicate, length, get_elem?}
use cpp_atmi.Atmi.Texts.{Text, Texts, Arg, bytes, strncpy}
use cpp_atmi.Options.{Process}
use cpp_atmi.Ulog.{Level, Userlog, value}

-- The level in force, the names of the levels, and the array for a message.
pub record UlogLogger : Type 0 where
  pub level : Level
  pub levels : List Text
  pub buffer : Text

-- `log`: the message is formatted into the array, and then the format itself is written, as the
-- format of a line. `none` is an access outside of the names.
unfoldable pub log :
    {W : Type 0} ⦃l : Userlog W⦄ ⦃p : Process W⦄ ⦃t : Texts⦄
    → Level
    → Text
    → List Arg
    → UlogLogger
    → W
    → Option (UlogLogger × W)
log ⦃l⦄ ⦃p⦄ ⦃t⦄ at msg args u w =
    let n = length u.buffer in
    let filled = strncpy (replicate n 0) (take (n - 1) (t.format msg args)) (n - 1) in
    let w₁ = p.cout (bytes "vsnprintf returned: " ++ msg ++ 10 ∷ []) w in
    if leb (value u.level) (value at)
    then (elim (get_elem? u.levels (value at)) [
      | none ↦ none
      | some name ↦
          (let m = name ++ bytes ": " ++ msg in
            let w₂ = p.cout (bytes "print message : " ++ m ++ 10 ∷ []) w₁ in
            some (record u { buffer = filled }, p.cout (bytes "done\n") (l.userlog m [] w₂)))
    ])
    else some (u, w)
