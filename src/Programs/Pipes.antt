-- ===== src/Programs/Pipes.antt =====
-- utls/qexport.bcl and utls/decode.bcl, one after the other: what qexport writes, decode prints.
use cpp_atmi.Prelude.{
  ℕ, ◌+◌, ◌*◌, ◌<◌, ◌≡◌, Bool, true, false, Option, none, some, List, [], ◌++◌, ◌∙◌, ap,
}
use cpp_atmi.Prelude.Lists.{length}
use cpp_atmi.Atmi.Codes.{Constants}
use cpp_atmi.Atmi.Texts.{Text, Texts}
use cpp_atmi.Atmi.Calls.{Atmi, Queueing, Qctl, Ptr}
use cpp_atmi.Atmi.Fml.{Fml}
use cpp_atmi.Queue.Modes.{IsFlagTable}
use cpp_atmi.QueueStream.Server.{View, IsServer, IsReliable, IsSettled, with_data}
use cpp_atmi.QueueStream.Export.Successes.{Fits}
use cpp_atmi.QueueStream.Import.{get_lines}
use cpp_atmi.QueueStream.RoundTrip.{AreLines, AreLines-with_data, get_lines-lines}
use cpp_atmi.Client.{AbstractClient}
use cpp_atmi.Options.{Process}
use cpp_atmi.Programs.{Shell, IsQuiet}
use cpp_atmi.Programs.Export.{run}
use cpp_atmi.Programs.Export.Rounds.{Pause, found, left, actions, Ends, ArrivalsFit, ArePauses}
use cpp_atmi.Programs.Export.Finishes.{RunDelivers, run-Delivers}
use cpp_atmi.Programs.Decode.{Strings}
use cpp_atmi.Programs.Decode as Decode
use cpp_atmi.Programs.Decode.Terminal.{Content, IsTerminal, shown_lines, are_messages}
use cpp_atmi.Programs.Decode.Runs.{run-Shows}

module _ {W : Type 0} ⦃a : Atmi W⦄ ⦃t : Texts⦄ ⦃f : Fml W⦄ ⦃k : Constants⦄ ⦃s : Queueing W⦄
    ⦃p : Process W⦄ ⦃m : Strings W⦄ ⦃h : Shell W⦄ {qspace queue : Text} {view : W → View}
    {form : W → Ptr → ℕ → Text} (law : IsServer qspace queue k.tpex_string view form)
    (works : IsReliable qspace queue k.tpex_string view form) (quiet : IsQuiet view)
    (table : IsFlagTable) {shown : W → Text} {message : Text → Option Content}
    (terminal : IsTerminal shown message) where
  -- qexport ends well and leaves the messages `rest`, and a decode of its output, in any state `v`,
  -- prints the messages `ms`.
  abbrev pub Passes :
      List Text → List Text → ℕ → AbstractClient → W → Option (Bool × Text × W) → Type 0
  Passes ms rest n d v none = ⊥
  Passes ms rest n d v (some (false, out, w')) = ⊥
  Passes ms rest n d v (some (true, out, w')) =
      let (status, d', v') = Decode.run n out d v in
      ((view w').contents ≡ rest)
      × IsSettled (view w')
      × (status ≡ are_messages message (with_data ms))
      × (shown v' ≡ shown v ++ shown_lines message (with_data ms))

  delivered-Passes :
      (ms rest : List Text) (n : ℕ) (d : AbstractClient) (v : W) (o : Option (Bool × Text × W))
      → AreLines ms
      → RunDelivers law works quiet table ms rest [] o
      → Passes ms rest n d v o
  delivered-Passes ms rest n d v (some (true, out, w')) each (written, remains, settled) =
      let (read, printed) = run-Shows terminal n out d v in
      let back : get_lines out ≡ with_data ms =
        ap get_lines written ∙ get_lines-lines (with_data ms) (AreLines-with_data ms each) in
      (
        remains,
        settled,
        read ∙ ap (are_messages message) back,
        printed ∙ ap (λ ls. shown v ++ shown_lines message ls) back,
      )
  delivered-Passes ms rest n d v (some (false, out, w')) each r = r
  delivered-Passes ms rest n d v none each r = r

  -- In a domain where the calls do what is documented and nothing fails, outside of a
  -- transaction, with messages without a newline of at most twice the buffer size, now and
  -- between the rounds, and fuel for two rounds of each export more than there are messages: a
  -- run of qexport that is interrupted at some time, or is no daemon, ends with EXIT_SUCCESS,
  -- leaves what arrived after its last round, and a decode of its output, in any state, prints
  -- the messages with data that it found, in order and up to the first one that tpimport
  -- refuses, with success if there is none. What it took is gone for good.
  pub run-Passes :
      (fuel : ℕ) (is : List (Pause W)) (buffer_size n : ℕ) (daemon : Bool) (raw : Qctl)
      (c d : AbstractClient) (w v : W)
      → ArePauses view is
      → Ends daemon is
      → (view w).pending ≡ false
      → Fits (2 * buffer_size) (view w).contents
      → length (view w).contents + 1 < fuel
      → ArrivalsFit (2 * buffer_size) fuel is
      → AreLines (found daemon (view w).contents is)
      → Passes
          (found daemon (view w).contents is)
          (left daemon is)
          n
          d
          v
          (run fuel (actions is) qspace queue buffer_size [] daemon raw c w)
  run-Passes fuel is buffer_size n daemon raw c d w v ps ends idle fits room later each =
      delivered-Passes (found daemon (view w).contents is) (left daemon is) n d v
        (run fuel (actions is) qspace queue buffer_size [] daemon raw c w) each
        (run-Delivers law works quiet table fuel is buffer_size [] daemon raw c w ps ends idle fits
          room later)
