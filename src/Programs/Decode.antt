-- ===== src/Programs/Decode.antt =====
-- utls/decode.bcl: printing the messages of files that qexport wrote.
pub mod Terminal
pub mod Runs
pub mod Files
use cpp_atmi.Prelude.{ℕ, ◌++◌, Bool, true, false, none, some, List, [], ◌∷◌, if◌then◌else◌}
use cpp_atmi.Prelude.Int.{is_neg}
use cpp_atmi.Prelude.Lists.{length, take}
use cpp_atmi.Atmi.Codes.{Constants}
use cpp_atmi.Atmi.Texts.{Text, Texts, bytes, c_str}
use cpp_atmi.Atmi.Calls.{Atmi, Queueing, Joining, Tpinit, Ptr}
use cpp_atmi.Atmi.Fml.{Fml}
use cpp_atmi.Exceptions.{tuxedo_exception}
use cpp_atmi.Method.{
  Method, Outcome, ok, err, pure, throw, this, assign, reads, does, ◌>>=◌, ◌>>◌, when, on,
}
use cpp_atmi.Tuxedo.{Tuxedo, allocate, free}
use cpp_atmi.Buffer.{text_eqb}
use cpp_atmi.QueueStream.Import.{get_lines}
use cpp_atmi.Client.{AbstractClient}
use cpp_atmi.Options.{Options, Process, set, parse, options}
use cpp_atmi.Options.Usage.{options_usage, usage}
use cpp_atmi.Programs.{Shell, Exit, report, with_client}

-- The client and the variable `message`.
pub record Decoder : Type 0 where
  pub client : AbstractClient
  pub message : Ptr

-- The memory of the message buffers: the text with a closing NUL at an address.
pub record Strings (W : Type 0) : Type 0 where
  pub string_at : Ptr → W → Text

-- `strncmp ( type, name, MAXTIDENT ) == 0`
unfoldable pub is_type : ⦃k : Constants⦄ → Text → Text → Bool
is_type ⦃k⦄ type name = text_eqb (take k.maxtident type) name

module _ {W : Type 0} ⦃a : Atmi W⦄ ⦃t : Texts⦄ ⦃f : Fml W⦄ ⦃k : Constants⦄ ⦃s : Queueing W⦄
    ⦃p : Process W⦄ ⦃m : Strings W⦄ where
  abbrev pub on_client : {A : Type 0} → Method Tuxedo W A → Method Decoder W A
  on_client m =
      on (λ x. x.client.tuxedo) (λ t x. record x { client = record x.client { tuxedo = t } }) m

  -- `tpimport ( line.c_str(), line.size(), &message, &len, TPEX_STRING )`: whether it failed.
  unfoldable pub call_tpimport : Text → Method Decoder W Bool
  call_tpimport line x w =
      let r = s.tpimport line (length line) x.message 0 k.tpex_string w in
      (ok (is_neg r.rc), record x { message = r.buf }, r.world)

  -- `tptypes ( message, type, NULL )`: the text in `type`. The result of the call is not used.
  unfoldable pub get_type : Method Decoder W Text
  get_type x w = let (rc, type, w') = a.tptypes x.message w in (ok (c_str type), x, w')

  unfoldable pub print_message : Text → Method Decoder W (Unit {0})
  print_message type = do
    message ← this (λ x. x.message)
    text ← reads (m.string_at message)
    if is_type type (bytes "STRING")
        then does (p.cout (text ++ 10 ∷ []))
        else if is_type type (bytes "FML")
        then does (f.fprint32 message)
        else does (
            p.cerr (
              bytes "program doesn't support the decoding of " ++ type ++ bytes " messages yet.\n"))

  -- The body of the `while`.
  unfoldable pub decode_line : Text → Method Decoder W (Unit {0})
  decode_line line = do
    failed ← call_tpimport line
    e ← reads a.tperrno
    when failed (
        throw (
          tuxedo_exception e (bytes "TPIMPORT failed. Was this message exported using tpexport ?")
            []))
    get_type >>= print_message

  unfoldable pub decode_lines : List Text → Method Decoder W (Unit {0})
  decode_lines [] = pure tt
  decode_lines (line ∷ lines) = decode_line line >> decode_lines lines

  unfoldable pub free_message : Method Decoder W (Unit {0})
  free_message = do message ← this (λ x. x.message); on_client (free message)

  -- The body of the `try`.
  unfoldable pub decode : ℕ → Text → Method Decoder W (Unit {0})
  decode buffer_size text = do
    message ← on_client (allocate (bytes "CARRAY") none buffer_size)
    assign (λ x. record x { message = message })
    decode_lines (get_lines text)
    free_message

  -- The end of the `try`, and the handler.
  unfoldable pub decode_ends : Outcome (Unit {0}) × Decoder × W → Bool × AbstractClient × W
  decode_ends (ok v, x, w) = (true, x.client, w)
  decode_ends (err e, x, w) = let (r, x', w') = free_message x w in (false, x'.client, report e w')

  -- `decode::run` of a stream that holds `text`: whether it returns EXIT_SUCCESS.
  unfoldable pub run : ℕ → Text → AbstractClient → W → Bool × AbstractClient × W
  run buffer_size text c w =
      decode_ends (decode buffer_size text (record { client = c; message = none }) w)

  -- The loop over the arguments: `status` is that of the last file that could be opened.
  unfoldable pub decode_files : ⦃h : Shell W⦄ → ℕ → List Text → Bool → AbstractClient → W → Bool × W
  unfolding run
  decode_files buffer_size [] status c w = (status, w)
  decode_files ⦃h⦄ buffer_size (path ∷ paths) status c w =
      let (file, w₁) = h.open_in path w in
      elim file [
        | none ↦
            decode_files buffer_size paths status c
              (h.perror (bytes "failed to open import file") w₁)
        | some text ↦
            let (status', c', w₂) = run buffer_size text c w₁ in
            decode_files buffer_size paths status' c' w₂
      ]

  -- What `main` does with the client: the files, or the standard input. The client is closed as it
  -- was at first, which differs in the error numbers only.
  unfoldable pub decode_from : ⦃h : Shell W⦄ → Options → AbstractClient → W → Exit W
  unfolding run decode_files
  decode_from ⦃h⦄ o c w = elim (h.arguments w) [
    | [] ↦ let (status, c', w') = run o.buffer_size (h.input w) c w in some (status, [], w')
    | path ∷ paths ↦
        let (status, w') = decode_files o.buffer_size (path ∷ paths) false c w in
        some (status, [], w')
  ]

  -- `main`, with fuel for the parsing of the command line. The text of the usage is that of qimport.
  unfoldable pub decode_main : ⦃h : Shell W⦄ → ⦃j : Joining W⦄ → ℕ → Text → Tpinit → W → Exit W
  unfolding parse with_client options usage
  decode_main turns pname info w = elim (parse set turns options.arguments options w) [
    | none ↦ none
    | some (o, w₁) ↦ elim o.failed [
      | true ↦
          some
            (false, [], usage options_usage pname (some (bytes "load messages in a queue.")) o w₁)
      | false ↦ with_client pname o info (decode_from o) w₁
    ]
  ]
