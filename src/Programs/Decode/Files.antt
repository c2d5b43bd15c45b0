-- ===== src/Programs/Decode/Files.antt =====
-- What decode prints of a list of files.
use mathlib.Core.List.{append-nil, append_assoc}
use cpp_atmi.Prelude.{
  ℕ, ◌≡◌, refl, Bool, Option, none, some, List, [], ◌∷◌, ◌++◌, arith, Option-cases, inl, inr, sym,
}
use cpp_atmi.Atmi.Codes.{Constants}
use cpp_atmi.Atmi.Texts.{Text, Texts, bytes}
use cpp_atmi.Atmi.Calls.{Atmi, Queueing}
use cpp_atmi.Atmi.Fml.{Fml}
use cpp_atmi.QueueStream.Import.{get_lines}
use cpp_atmi.Client.{AbstractClient}
use cpp_atmi.Options.{Process}
use cpp_atmi.Programs.{Shell}
use cpp_atmi.Programs.Import.Runs.{IsDisk}
use cpp_atmi.Programs.Decode.{Strings, run, decode_files}
use cpp_atmi.Programs.Decode.Terminal.{Content, IsTerminal, shown_lines, are_messages}
use cpp_atmi.Programs.Decode.Runs.{run-Shows}

-- What is printed of the files on `disk`, one after the other.
unfoldable pub shown_files :
    ⦃k : Constants⦄ → (Text → Option Text) → (Text → Option Content) → List Text → Text
shown_files disk message [] = []
shown_files disk message (path ∷ paths) =
    let rest = shown_files disk message paths in
    elim (disk path) [ none ↦ rest | some text ↦ shown_lines message (get_lines text) ++ rest ]

-- Whether the last file that could be opened held messages only; `status` if there is none.
unfoldable pub last_read : (Text → Option Text) → (Text → Option Content) → Bool → List Text → Bool
last_read disk message status [] = status
last_read disk message status (path ∷ paths) =
    last_read disk message
      (elim (disk path) [ none ↦ status | some text ↦ are_messages message (get_lines text) ]) paths

-- Opening a file and the message that it cannot be opened print nothing.
pub record IsSilent {W : Type 0} ⦃h : Shell W⦄ (shown : W → Text) : Type 0 where
  pub opened : (path : Text) (w : W) → shown (h.open_in path w).1 ≡ shown w
  pub failed : (msg : Text) (w : W) → shown (h.perror msg w) ≡ shown w

module _ {W : Type 0} ⦃a : Atmi W⦄ ⦃t : Texts⦄ ⦃f : Fml W⦄ ⦃k : Constants⦄ ⦃s : Queueing W⦄
    ⦃p : Process W⦄ ⦃m : Strings W⦄ ⦃h : Shell W⦄ where
  -- If the calls do what is documented and the memory for a message is there, on a disk whose
  -- files stay as they are: decode prints the messages of the files that it can open, in order,
  -- and of each file up to the first line that tpimport refuses. A message of type STRING is
  -- printed with a newline, one of type FML as Fprint32 prints it, and any other not at all. The
  -- status is success if all lines of the last file that could be opened are messages, and the
  -- one that it had if there is no such file.
  pub decode_files-Shows :
      {shown : W → Text} {message : Text → Option Content} (law : IsTerminal shown message)
      {disk : Text → Option Text} (stays : IsDisk W disk) (silent : IsSilent shown)
      (buffer_size : ℕ) (paths : List Text) (status : Bool) (c : AbstractClient) (w : W)
      → let (status', w') = decode_files buffer_size paths status c w in
        (status' ≡ last_read disk message status paths)
        × (shown w' ≡ shown w ++ shown_files disk message paths)
  unfolding decode_files shown_files last_read
  decode_files-Shows {shown} law stays silent buffer_size [] status c w =
      (refl, sym (append-nil (shown w)))
  decode_files-Shows {shown} {message} law {disk} stays silent buffer_size (path ∷ paths) status c
        w =
      let (file, w₁) = h.open_in path w in
      let skipped = h.perror (bytes "failed to open import file") w₁ in
      elim (Option-cases (disk path)) [
        | inl e ↦ ground (
          arith,
          e,
          stays.holds path w,
          silent.opened path w,
          silent.failed (bytes "failed to open import file") w₁,
          decode_files-Shows law stays silent buffer_size paths status c skipped,
        )
        | inr (text, e) ↦
            let (status', c', w₂) = run buffer_size text c w₁ in
            ground (
              arith,
              e,
              stays.holds path w,
              silent.opened path w,
              run-Shows law buffer_size text c w₁,
              decode_files-Shows law stays silent buffer_size paths status' c' w₂,
              append_assoc (shown w) (shown_lines message (get_lines text))
                  (shown_files disk message paths),
            )
      ]
