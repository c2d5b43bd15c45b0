-- ===== src/Programs/Writer.antt =====
-- utls/qwriter.bcl: putting the lines of the standard input into a queue, up to one that is `quit`.
pub mod Runs
use mathlib.Core.Option
use cpp_atmi.Prelude.{ℕ, zero, suc, ◌+◌, Bool, true, false, Option, none, some, List, [], ◌∷◌, ◌++◌}
use cpp_atmi.Prelude.Lists.{length, replicate}
use cpp_atmi.Atmi.Codes.{Constants}
use cpp_atmi.Atmi.Texts.{Text, Texts, bytes, strncpy}
use cpp_atmi.Atmi.Calls.{Atmi, Queueing, Qctl, Joining, Tpinit}
use cpp_atmi.Method.{Method, Outcome, ok, err, pure, this, does, ◌>>=◌, ◌>>◌, on}
use cpp_atmi.Tuxedo.{Tuxedo, allocate, destroy}
use cpp_atmi.Buffer.{text_eqb}
use cpp_atmi.Queue.{Queue}
use cpp_atmi.Queue.Transfer.{enqueue}
use cpp_atmi.QueueStream.Import.{get_lines}
use cpp_atmi.Client.{AbstractClient}
use cpp_atmi.Client.Factories.{new_queue_instance}
use cpp_atmi.Options.{Process, parse, set_queue, queue_options}
use cpp_atmi.Options.Usage.{queue_usage}
use cpp_atmi.Programs.{Shell, Exit, report, with_queue}

-- The client and its queue.
pub record Writer : Type 0 where
  pub client : AbstractClient
  pub queue : Queue

-- The memory of the message buffers: what memset and strncpy store from an address on.
pub record Memory (W : Type 0) : Type 0 where
  pub store : Option ℕ → Text → W → W

-- `std::getline` into a new string: the next line, and what is left. Behind the last line it leaves
-- the string empty.
unfoldable pub getline : List Text → Text × List Text
getline [] = ([], [])
getline (line ∷ lines) = (line, lines)

module _ {W A : Type 0} where
  abbrev pub on_client : Method Tuxedo W A → Method Writer W A
  on_client m =
      on (λ x. x.client.tuxedo) (λ t x. record x { client = record x.client { tuxedo = t } }) m

  abbrev pub on_queue : Method Queue W A → Method Writer W A
  on_queue m = on (λ x. x.queue) (λ q x. record x { queue = q }) m

module _ {W : Type 0} ⦃a : Atmi W⦄ ⦃t : Texts⦄ ⦃k : Constants⦄ ⦃s : Queueing W⦄ ⦃p : Process W⦄
    ⦃m : Memory W⦄ where
  -- A message is copied into a buffer of its own, and put into the queue. The buffer is not freed.
  unfoldable pub write_message : Text → Method Writer W (Unit {0})
  write_message message = do
    let size = length message
    buffer ← on_client (allocate (bytes "STRING") none (size + 1))
    does (m.store buffer (strncpy (replicate (size + 1) 0) message size))
    on_queue (enqueue buffer size) >>= λ _. pure tt

  -- The loop of `run`, on fuel: the number of its turns. `lines` is what is left of the input.
  unfoldable pub write_lines : ℕ → List Text → Writer → W → Option (Outcome (Unit {0}) × Writer × W)
  unfolding getline
  write_lines zero lines x w = none
  write_lines (suc turns) lines x w =
      let w₁ = p.cout (bytes "enter message text (or \"quit\" to end): ") w in
      let (message, rest) = getline lines in
      elim (text_eqb message (bytes "quit")) [
        | true ↦ some (ok tt, x, w₁)
        | false ↦ elim message [
          | [] ↦ write_lines turns rest x w₁
          | c ∷ cs ↦
              let (r, x', w₂) = write_message (c ∷ cs) x w₁ in
              elim r [ ok v ↦ write_lines turns rest x' w₂ | err e ↦ some (err e, x', w₂) ]
        ]
      ]

  -- The end of the `try` of `run`, and its handler: the queue is destroyed.
  unfoldable pub write_ends : Outcome (Unit {0}) × Writer × W → Bool × Text × W
  unfolding destroy report
  write_ends (ok v, x, w) = (true, [], destroy x.queue.tuxedo w)
  write_ends (err e, x, w) = (false, [], report e (destroy x.queue.tuxedo w))

  -- `queue_writer::run`
  unfoldable pub run : ℕ → List Text → Qctl → Text → Text → AbstractClient → W → Exit W
  unfolding new_queue_instance write_lines write_ends
  run turns lines raw qspace queue c w =
      let (r, q, w₁) = new_queue_instance (some qspace) (some queue) none raw c w in
      elim r [
        | err e ↦ some (false, [], report e (destroy q.tuxedo w₁))
        | ok v ↦
            Option.map write_ends (write_lines turns lines (record { client = c; queue = q }) w₁)
      ]

  -- `main`: the client is named qwriter.
  unfoldable pub writer_main :
      ⦃j : Joining W⦄ → ⦃h : Shell W⦄ → ℕ → ℕ → Text → Qctl → Tpinit → W → Exit W
  unfolding parse with_queue queue_options
  writer_main ⦃h⦄ parts turns pname raw info w =
      elim (parse set_queue parts queue_options.options.arguments queue_options w) [
        | none ↦ none
        | some (o, w₁) ↦
            with_queue queue_usage (bytes "write STRING typed Tuxedo messages into a queue.") pname
              (bytes "qwriter") o info (run turns (get_lines (h.input w₁)) raw) w₁
      ]
