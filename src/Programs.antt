-- ===== src/Programs.antt =====
-- utls/qexport.bcl, utls/qimport.bcl, utls/qwriter.bcl and utls/decode.bcl: the programs that move
-- the messages of a queue to a file and back, take them from the terminal, and print them.
pub mod Quiet
pub mod Joins
pub mod Export
pub mod Import
pub mod Writer
pub mod Decode
pub mod Pipes
use mathlib.Core.Option
use cpp_atmi.Prelude.{ℕ, Bool, true, false, Option, none, some, List, [], ◌∷◌, ◌++◌, ◌≡◌}
use cpp_atmi.Atmi.Codes.{Constants}
use cpp_atmi.Atmi.Texts.{Text, Texts, bytes}
use cpp_atmi.Atmi.Calls.{Atmi, Joining, Tpinit}
use cpp_atmi.Exceptions.{Exception, what}
use cpp_atmi.Method.{ok, err}
use cpp_atmi.Tuxedo.{destroy}
use cpp_atmi.Client.{AbstractClient, leave}
use cpp_atmi.Client.Factories.{new_user}
use cpp_atmi.Options.{Options, QueueOptions, Process}
use cpp_atmi.Options.Usage.{usage}
use cpp_atmi.QueueStream.Server.{View}

-- What the programs use of the operating system and of the C++ library.
pub record Shell (W : Type 0) : Type 0 where
  -- the global variable `running`, which the handler of SIGINT clears
  pub running : W → Bool
  -- signal(SIGINT, signal_handler)
  pub on_interrupt : W → W
  -- the text of a file that is opened for reading, or `none` where that fails
  pub open_in : Text → W → Option Text × W
  -- open(path, out | app) and is_open()
  pub open_out : Text → W → Bool × W
  pub perror : Text → W → W
  -- what can be read from the standard input
  pub input : W → Text
  -- the arguments that getopt leaves
  pub arguments : W → List Text

-- `std::cerr << err.what() << std::endl`
unfoldable pub report : {W : Type 0} ⦃p : Process W⦄ → Exception → W → W
report ⦃p⦄ e w = p.cerr (what e ++ 10 ∷ []) w

-- Messages, catalogues and files leave the queue alone.
pub record IsQuiet {W : Type 0} ⦃a : Atmi W⦄ ⦃p : Process W⦄ ⦃h : Shell W⦄ (view : W → View)
    : Type 0 where
  pub opened : (w : W) → view (a.catopen w).1 ≡ view w
  pub closed : (catd : ℕ) (w : W) → view (a.catclose catd w) ≡ view w
  pub said : (msg : Text) (w : W) → view (p.cerr msg w) ≡ view w
  pub read : (path : Text) (w : W) → view (h.open_in path w).1 ≡ view w
  pub failed : (msg : Text) (w : W) → view (h.perror msg w) ≡ view w

-- A program has EXIT_SUCCESS, or not, and what it wrote to its output. `none` is a program that does
-- not end, leaves its memory, or is terminated.
abbrev pub Exit : Type 0 → Type 0
Exit W = Option (Bool × Text × W)

module _ {W : Type 0} ⦃a : Atmi W⦄ ⦃j : Joining W⦄ ⦃t : Texts⦄ ⦃k : Constants⦄ where
  -- The destructor of a client, which may not throw.
  unfoldable pub close : AbstractClient → W → Option W
  unfolding leave destroy
  close c w =
      let (r, c', w') = leave c w in elim r [ ok v ↦ some (destroy c'.tuxedo w') | err e ↦ none ]

  -- `closing c body`: the scope of a client.
  unfoldable pub closing : AbstractClient → Exit W → Exit W
  unfolding close
  closing c none = none
  closing c (some (status, out, w)) = Option.map (λ w'. (status, out, w')) (close c w)

  -- The body of the `try` of `main` behind the parsing: a client is constructed for its options, and
  -- `work` done with it. `raw` is what the memory of the TPINIT holds.
  unfoldable pub with_client :
      ⦃p : Process W⦄ → Text → Options → Tpinit → (AbstractClient → W → Exit W) → W → Exit W
  unfolding closing report
  with_client cltname o raw work w =
      elim (new_user (some cltname) o.user o.sys_passwd o.app_passwd o.group raw w) [
        | none ↦ none
        | some (err e, w₁) ↦ some (false, [], report e w₁)
        | some (ok c, w₁) ↦ closing c (work c w₁)
      ]

  -- `main` behind the parsing: without a queue space and a queue it says how it is called.
  unfoldable pub with_queue :
      ⦃p : Process W⦄
      → (W → W)
      → Text
      → Text
      → Text
      → QueueOptions
      → Tpinit
      → (Text → Text → AbstractClient → W → Exit W)
      → W
      → Exit W
  unfolding usage with_client
  with_queue ⦃p⦄ options_usage details pname cltname o raw work w =
      let refuse : Exit W = some (
        false,
        [],
        usage options_usage pname (some details) o.options (
            p.cerr (bytes "missing arguments, please provide a queue space and queue name (-q).\n")
              w),
      ) in
      elim o.qspace [
        | none ↦ refuse
        | some qspace ↦ elim o.queue [
          | none ↦ refuse
          | some queue ↦ with_client cltname o.options raw (work qspace queue) w
        ]
      ]
