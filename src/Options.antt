-- ===== src/Options.antt =====
-- utls/options.hpp: the command line of the programs.
pub mod Parses
pub mod Usage
use cpp_atmi.Prelude.{ℕ, zero, suc, ◌++◌, Bool, true, false, Option, none, some, [], ◌∷◌}
use cpp_atmi.Prelude.Int.{ℤ}
use cpp_atmi.Atmi.Codes.{Constants}
use cpp_atmi.Atmi.Texts.{Text, Texts, num, str, bytes}
use cpp_atmi.Buffer.{to_size}

-- What `getopt` returns and the program names: 'v', 'u', ..., '?', or another character.
pub data Opt : Type 0 where
  opt_v opt_u opt_s opt_p opt_g opt_b opt_q opt_d opt_o no_operand unrecognized : Opt
  other : ℤ → Opt

-- The calls of the C library. `W` is the state of the process, its arguments included.
pub record Process (W : Type 0) : Type 0 where
  -- getopt(argc, argv, optstring), where -1 is `none`
  pub getopt : Text → W → Option Opt × W
  pub optarg : W → Option Text
  pub optopt : W → ℤ
  pub atoi : Option Text → ℤ
  pub strtok : Option Text → Text → W → Option Text × W
  pub cout : Text → W → W
  pub cerr : Text → W → W
  -- cpp_atmi_version(), which the build defines
  pub version_text : Text

pub record Options : Type 0 where
  pub failed : Bool
  pub user : Option Text
  pub sys_passwd : Option Text
  pub app_passwd : Option Text
  pub group : Option Text
  pub buffer_size : ℕ
  pub arguments : Text
  pub arguments_usage : Text

pub record QueueOptions : Type 0 where
  pub options : Options
  pub queue : Option Text
  pub qspace : Option Text

pub record ExportOptions : Type 0 where
  pub queue_options : QueueOptions
  pub daemon : Bool
  pub output_file : Option Text

-- `daemon` is not initialised: `none`, and nothing sets it.
pub record ImportOptions : Type 0 where
  pub queue_options : QueueOptions
  pub daemon : Option Bool

unfoldable pub options : Options
options = record {
  failed = false;
  user = none;
  sys_passwd = none;
  app_passwd = none;
  group = none;
  buffer_size = 1024;
  arguments = bytes "u:p:s:g:b:v";
  arguments_usage =
      bytes "[-b buffer size] [-v] [-u user] [-p password] [-s system password] [-g group]";
}

unfoldable pub queue_options : QueueOptions
unfolding options
queue_options = record {
  options = record options {
    arguments = bytes ":q:" ++ options.arguments;
    arguments_usage = bytes "-q <qspace:queue> " ++ options.arguments_usage;
  };
  queue = none;
  qspace = none;
}

unfoldable pub export_options : ExportOptions
unfolding queue_options
export_options =
    let base = queue_options.options in
    record {
      queue_options = record queue_options {
        options = record base {
          arguments = base.arguments ++ bytes "o:d";
          arguments_usage = base.arguments_usage ++ bytes " [-d] [-o output file]";
        };
      };
      daemon = false;
      output_file = none;
    }

unfoldable pub import_options : ImportOptions
unfolding queue_options
import_options =
    let base = queue_options.options in
    record {
      queue_options = record queue_options {
        options = record base { arguments_usage = base.arguments_usage ++ bytes " file..." };
      };
      daemon = none;
    }

module _ {W : Type 0} ⦃p : Process W⦄ where
  unfoldable pub version : W → W
  version w = p.cout (bytes "comes with: " ++ p.version_text ++ bytes "\n\n") w

  -- The loop of `parse`, with the most derived `set` of the object. Each turn takes fuel, and
  -- `none` is a loop that has not ended.
  unfoldable pub parse : {C : Type 0} → (Opt → C → W → C × W) → ℕ → Text → C → W → Option (C × W)
  parse set zero arguments c w = none
  parse set (suc fuel) arguments c w =
      let (opt, w₁) = p.getopt arguments w in
      elim opt [
        | none ↦ some (c, w₁)
        | some o ↦ let (c', w₂) = set o c w₁ in parse set fuel arguments c' w₂
      ]

module _ {W : Type 0} ⦃p : Process W⦄ ⦃t : Texts⦄ ⦃k : Constants⦄ where
  -- `options::set`: `optarg` is a global variable.
  unfoldable pub set : Opt → Options → W → Options × W
  unfolding version
  set opt_v c w = (record c { failed = true }, version w)
  set opt_u c w = (record c { user = p.optarg w }, w)
  set opt_s c w = (record c { sys_passwd = p.optarg w }, w)
  set opt_p c w = (record c { app_passwd = p.optarg w }, w)
  set opt_g c w = (record c { group = p.optarg w }, w)
  set opt_b c w = (record c { buffer_size = to_size (p.atoi (p.optarg w)) }, w)
  set no_operand c w = (
    record c { failed = true },
    p.cerr (t.format (bytes "option -%c requires an operand\n. ") (num (p.optopt w) ∷ [])) w,
  )
  set unrecognized c w = (
    record c { failed = true },
    p.cerr (t.format (bytes "unrecognized option -%c.\n") (num (p.optopt w) ∷ [])) w,
  )
  set _ c w = (c, w)

  unfoldable pub set_queue : Opt → QueueOptions → W → QueueOptions × W
  set_queue opt_q c w =
      let (qspace, w₁) = p.strtok (p.optarg w) (bytes ":") w in
      let (queue, w₂) = p.strtok none (bytes ":") w₁ in
      (record c { qspace = qspace; queue = queue }, w₂)
  set_queue opt c w = let (base, w') = set opt c.options w in (record c { options = base }, w')

  unfoldable pub set_export : Opt → ExportOptions → W → ExportOptions × W
  set_export opt_d c w = (record c { daemon = true }, w)
  set_export opt_o c w = (record c { output_file = p.optarg w }, w)
  set_export opt c w =
      let (base, w') = set_queue opt c.queue_options w in (record c { queue_options = base }, w')
