-- ===== src/Tests/Argv.antt =====
-- A command line as getopt reads it, and what strtok cuts.
use cpp_atmi.Prelude.{ℕ, ◌≡◌, refl, Option, none, some, List, [], ◌∷◌, ◌==◌, if◌then◌else◌}
use cpp_atmi.Prelude.Lists.{get_elem?}
use cpp_atmi.Atmi.Texts.{Text}
use cpp_atmi.Options.{Opt}

-- The arguments that are left, `optarg`, and what `strtok` has left.
pub record Argv : Type 0 where
  pub rest : List (Opt × Text)
  pub operand : Option Text
  pub tokens : List Text

abbrev pub cut : ℕ → List Text → List Text
cut c [] = (c ∷ []) ∷ []
cut c (t ∷ ts) = if c == 58 then [] ∷ t ∷ ts else (c ∷ t) ∷ ts

abbrev pub parts : Text → List Text
parts [] = []
parts (c ∷ s) = cut c (parts s)

abbrev pub tail : List Text → List Text
tail [] = []
tail (t ∷ ts) = ts

abbrev pub get : Argv → Option Opt × Argv
get w = elim w.rest [
  | [] ↦ (none, w)
  | (o, s) ∷ os ↦ (some o, record w { rest = os; operand = some s })
]

abbrev pub tokens_of : Option Text → Argv → List Text
tokens_of none w = w.tokens
tokens_of (some s) w = parts s

pub second : (ts : List Text) → get_elem? (tail ts) 0 ≡ get_elem? ts 1
second [] = refl
second (t ∷ []) = refl
second (t ∷ u ∷ ts) = refl
