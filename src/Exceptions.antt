-- ===== src/Exceptions.antt =====
-- include/atmi/exceptions.hpp and src/exceptions.cpp: the exception classes.
pub mod What
pub mod Defaults
use cpp_atmi.Prelude.{
  ℕ, ◌+◌, ◌-◌, Bool, true, false, Option, none, some, List, [], ◌∷◌, ◌++◌, ltb, if◌then◌else◌,
}
use cpp_atmi.Prelude.Int.{ℤ, pos}
use cpp_atmi.Prelude.Lists.{take, length}
use cpp_atmi.Atmi.Codes
use cpp_atmi.Atmi.Codes.{
  Errno, Diagno, FmlError, tpesvcerr, tpetime, tpeblock, tpgotsig, tpediagnostic, qmeinval,
  qmebadrmid, qmenotopen, qmetran, qmebadmsgid, qmesystem, qmeos, qmeaborted, qmeproto, qmebadqueue,
  qmenospace, qmerelease, qmeshare, qmenomsg,
}
use cpp_atmi.Atmi.Texts.{Text, Texts, Arg, bytes}

-- The class of an exception object.
pub data Class : Type 0 where
  atmi unix buffer field tuxedo service timeout blocking interrupt diagnostic nomsg aborted : Class

-- A number that the exception keeps in `_error`.
pub data Code : Type 0 where
  no_code : Code
  errno : ℤ → Code
  ferror : FmlError → Code
  tperr : Errno → Code

pub record Exception : Type 0 where
  pub class : Class
  pub what_text : Text
  pub message : Text
  pub error : Code
  pub detail : ℤ
  pub diagno : Option Diagno

-- ATMI_MESSAGE_LENGTH
abbrev pub atmi_message_length : ℕ
atmi_message_length = 1024

-- Which objects `catch (tuxedo_exception &)` and the other handlers of the program take: those of
-- the class and of the classes derived from it.
unfoldable pub is_tuxedo : Class → Bool
is_tuxedo atmi = false
is_tuxedo unix = false
is_tuxedo buffer = false
is_tuxedo field = false
is_tuxedo _ = true

unfoldable pub is_diagnostic : Class → Bool
is_diagnostic diagnostic = true
is_diagnostic nomsg = true
is_diagnostic aborted = true
is_diagnostic _ = false

unfoldable pub is_timeout : Class → Bool
is_timeout timeout = true
is_timeout _ = false

unfoldable pub is_buffer : Class → Bool
is_buffer buffer = true
is_buffer field = true
is_buffer _ = false

unfoldable pub diagnostic_message : Diagno → Text
diagnostic_message qmeinval = bytes "QMEINVAL: An invalid flag value was specified."
diagnostic_message qmebadrmid =
    bytes "QMEBADRMID: An invalid resource manager identifier was specified."
diagnostic_message qmenotopen = bytes "QMENOTOPEN: The resource manager is not currently open."
diagnostic_message qmetran =
    bytes "QMETRAN: Failed to start transaction to enqueue/dequeue a message."
diagnostic_message qmebadmsgid = bytes "QMEBADMSGID: An invalid message identifier was specified."
diagnostic_message qmesystem =
    bytes
      "QMESYSTEM: A system error occurred. The exact nature of the error is written to a log file."
diagnostic_message qmeos = bytes "QMEOS: An operating system error occurred."
diagnostic_message qmeaborted = bytes "QMEABORTED: The operation was aborted."
diagnostic_message qmeproto =
    bytes "QMEPROTO: An enqueue was done when the transaction state was not active."
diagnostic_message qmebadqueue =
    bytes "QMEBADQUEUE: An invalid or deleted queue name was specified."
diagnostic_message qmenospace =
    bytes "QMENOSPACE: insufficient resource, such as no space on the queue."
diagnostic_message qmerelease = bytes "QMERELEASE: System does not support a newer feature."
diagnostic_message qmeshare =
    bytes "QMESHARE: The queue is already opened for exclusive read and/or write."
diagnostic_message _ = bytes "Never heard about this diagno !!??"

-- atmi_exception::what
unfoldable pub what : Exception → Text
what e = if ltb 0 (length e.what_text) then e.what_text else e.message

-- `_message + " " + description`
unfoldable pub with_description : Text → Text → Text
with_description m d = m ++ b' ' ∷ d

module _ ⦃t : Texts⦄ where
  open t use {format, strerror, tpstrerror, fstrerror32}

  unfoldable pub atmi_exception : Text → List Arg → Exception
  atmi_exception msg args = record {
    class = atmi;
    what_text = [];
    message = take (atmi_message_length - 1) (format msg args);
    error = no_code;
    detail = pos 0;
    diagno = none;
  }

  unfoldable pub unix_exception : ℤ → Text → List Arg → Exception
  unfolding atmi_exception with_description
  unix_exception e msg args = record b {
    class = unix;
    error = errno e;
    what_text = with_description b.message (strerror e);
  }
    where
      b : Exception
      b = atmi_exception msg args

  unfoldable pub buffer_exception : FmlError → Text → List Arg → Exception
  unfolding atmi_exception with_description
  buffer_exception e msg args = record b {
    class = buffer;
    error = ferror e;
    what_text = with_description b.message (fstrerror32 e);
  }
    where
      b : Exception
      b = atmi_exception msg args

  unfoldable pub field_exception : FmlError → Text → List Arg → Exception
  unfolding buffer_exception with_description
  field_exception e msg args = record b {
    class = field;
    what_text = with_description b.message (fstrerror32 e);
  }
    where
      b : Exception
      b = buffer_exception e msg args

  unfoldable pub tuxedo_exception : Errno → Text → List Arg → Exception
  unfolding atmi_exception with_description
  tuxedo_exception e msg args = record b {
    class = tuxedo;
    error = tperr e;
    what_text = with_description b.message (tpstrerror e);
  }
    where
      b : Exception
      b = atmi_exception msg args

  unfoldable pub service_exception : Text → List Arg → Exception
  unfolding tuxedo_exception
  service_exception msg args = record b { class = service }
    where
      b : Exception
      b = tuxedo_exception tpesvcerr msg args

  unfoldable pub timeout_exception : Text → List Arg → Exception
  unfolding tuxedo_exception
  timeout_exception msg args = record b { class = timeout }
    where
      b : Exception
      b = tuxedo_exception tpetime msg args

  unfoldable pub blocking_exception : Text → List Arg → Exception
  unfolding tuxedo_exception
  blocking_exception msg args = record b { class = blocking }
    where
      b : Exception
      b = tuxedo_exception tpeblock msg args

  unfoldable pub interrupt_exception : Text → List Arg → Exception
  unfolding tuxedo_exception
  interrupt_exception msg args = record b { class = interrupt }
    where
      b : Exception
      b = tuxedo_exception tpgotsig msg args

  -- The description is that of the diagnostic only where `err` is TPEDIAGNOSTIC.
  unfoldable pub description : Errno → Diagno → Text
  unfolding diagnostic_message
  description tpediagnostic d = diagnostic_message d
  description e d = tpstrerror e

  unfoldable pub diagnostic_exception : Errno → Diagno → Text → List Arg → Exception
  unfolding tuxedo_exception with_description description
  diagnostic_exception e d msg args = record b {
    class = diagnostic;
    diagno = some d;
    what_text = with_description b.message (description e d);
  }
    where
      b : Exception
      b = tuxedo_exception e msg args

  unfoldable pub nomsg_exception : Text → List Arg → Exception
  unfolding diagnostic_exception
  nomsg_exception msg args = record b { class = nomsg }
    where
      b : Exception
      b = diagnostic_exception tpediagnostic qmenomsg msg args

  unfoldable pub aborted_exception : Text → List Arg → Exception
  unfolding diagnostic_exception
  aborted_exception msg args = record b { class = aborted }
    where
      b : Exception
      b = diagnostic_exception tpediagnostic qmeaborted msg args
