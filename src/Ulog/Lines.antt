-- ===== src/Ulog/Lines.antt =====
-- The lines of the user log.
use mathlib.Core.List.{append_assoc, append-nil}
use cpp_atmi.Prelude.{
  ◌≡◌, refl, sym, ap, ◌∙◌, inl, inr, Bool-cases, ◌++◌, Option, none, some, List, [], ◌∷◌, leb,
  if◌then◌else◌,
}
use cpp_atmi.Prelude.Lists.{get_elem?}
use cpp_atmi.Atmi.Texts.{Text, Arg, bytes}
use cpp_atmi.Ulog.{
  Level, error_level, warning_level, info_level, finer_level, debug_level, value, Userlog, Ulog,
  level_names, new, set_log_level, log, error, warning, info, finer, debug,
}

-- The calls of a program on its log.
pub data Request : Type 0 where
  write : Level → Text → List Arg → Request
  set_level : Level → Request

-- The member function for a level.
unfoldable pub writer :
    {W : Type 0} → ⦃l : Userlog W⦄ → Level → Text → List Arg → Ulog → W → Option W
unfolding error warning info finer debug
writer error_level = error
writer warning_level = warning
writer info_level = info
writer finer_level = finer
writer debug_level = debug

abbrev pub name : Level → Text
name error_level = bytes "ERROR"
name warning_level = bytes "WARNING"
name info_level = bytes "INFO"
name finer_level = bytes "FINER"
name debug_level = bytes "DEBUG"

-- What the log should get: the messages at the level in force and above it, with its name.
abbrev pub lines : Level → List Request → List (Text × List Arg)
lines level [] = []
lines level (set_level other ∷ rs) = lines other rs
lines level (write at fmt args ∷ rs) =
    let rest = lines level rs in
    if leb (value level) (value at) then (name at ++ bytes ": " ++ fmt, args) ∷ rest else rest

lines-write :
    (level at : Level) (fmt : Text) (args : List Arg) (rs : List Request)
    → lines level (write at fmt args ∷ []) ++ lines level rs ≡ lines level (write at fmt args ∷ rs)
lines-write level at fmt args rs = elim (Bool-cases (leb (value level) (value at))) [
  | inl e ↦ rw e refl
  | inr e ↦ rw e refl
]

name-found : (at : Level) → get_elem? level_names (value at) ≡ some (name at)
unfolding level_names
name-found error_level = refl
name-found warning_level = refl
name-found info_level = refl
name-found finer_level = refl
name-found debug_level = refl

module _ {W : Type 0} ⦃l : Userlog W⦄ where
  -- One call of `userlog` is one line more.
  abbrev pub IsLog : (W → List (Text × List Arg)) → Type 0
  IsLog written =
      (format : Text) (args : List Arg) (w : W)
      → written (l.userlog format args w) ≡ written w ++ (format, args) ∷ []

  unfoldable pub run : List Request → Ulog → W → Option W
  unfolding writer set_log_level
  run [] u w = some w
  run (set_level level ∷ rs) u w = run rs (set_log_level level u) w
  run (write at fmt args ∷ rs) u w = elim (writer at fmt args u w) [
    | none ↦ none
    | some w' ↦ run rs u w'
  ]

  writer-log :
      (at : Level) (fmt : Text) (args : List Arg) (u : Ulog) (w : W)
      → writer at fmt args u w ≡ log at fmt args u w
  unfolding writer error warning info finer debug
  writer-log error_level fmt args u w = refl
  writer-log warning_level fmt args u w = refl
  writer-log info_level fmt args u w = refl
  writer-log finer_level fmt args u w = refl
  writer-log debug_level fmt args u w = refl

  -- Every message finds the name of its level, and the line is written or not.
  log-line :
      (written : W → List (Text × List Arg)) (law : IsLog written) (at level : Level) (fmt : Text)
      (args : List Arg) (w : W)
      → (w' : W) × (log at fmt args (new level) w ≡ some w')
        × (written w' ≡ written w ++ lines level (write at fmt args ∷ []))
  unfolding log new
  log-line written law at level fmt args w = elim (Bool-cases (leb (value level) (value at))) [
    | inl e ↦ (
      l.userlog (name at ++ bytes ": " ++ fmt) args w,
      rw (log, e, name-found at) refl,
      rw e (law (name at ++ bytes ": " ++ fmt) args w),
    )
    | inr e ↦ (w, rw (log, e) refl, rw e (sym (append-nil (written w))))
  ]

  -- A log that was made for a level never leaves its array of names. Whatever messages are
  -- written and levels set, the user log gets exactly the messages at the level in force or
  -- above it, in order, each behind the name of its level, if one call of userlog is one line
  -- more.
  pub run-lines :
      (written : W → List (Text × List Arg)) (law : IsLog written) (rs : List Request)
      (level : Level) (w : W)
      → (w' : W) × (run rs (new level) w ≡ some w') × (written w' ≡ written w ++ lines level rs)
  unfolding run new set_log_level
  run-lines written law [] level w = (w, refl, sym (append-nil (written w)))
  run-lines written law (set_level other ∷ rs) level w = run-lines written law rs other w
  run-lines written law (write at fmt args ∷ rs) level w =
      let (w₁, e₁, same₁) = log-line written law at level fmt args w in
      let (w₂, e₂, same₂) = run-lines written law rs level w₁ in
      (
        w₂,
        rw (run, writer-log at fmt args (new level) w, e₁) e₂,
        same₂
            ∙ ap (λ (ls : List (Text × List Arg)). ls ++ lines level rs) same₁
            ∙ append_assoc (written w) (lines level (write at fmt args ∷ [])) (lines level rs)
            ∙ ap (λ (ls : List (Text × List Arg)). written w ++ ls)
                (lines-write level at fmt args rs),
      )
