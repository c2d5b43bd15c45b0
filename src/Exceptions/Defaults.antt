-- ===== src/Exceptions/Defaults.antt =====
-- src/exceptions.cpp: the constructors without arguments, and the accessors.
use cpp_atmi.Prelude.{none, []}
use cpp_atmi.Prelude.Int.{ℤ, pos}
use cpp_atmi.Atmi.Codes.{Errno, FmlError}
use cpp_atmi.Atmi.Texts.{Text, Texts, bytes}
use cpp_atmi.Exceptions.{
  Exception, Code, atmi, unix, buffer, no_code, errno, ferror, atmi_exception, field_exception,
}

unfoldable pub atmi_default : Exception
atmi_default = record {
  class = atmi;
  what_text = [];
  message = bytes "ATMI error occured, check ULOG for more informations";
  error = no_code;
  detail = pos 0;
  diagno = none;
}

-- `message ()` and `error ()`
unfoldable pub message : Exception → Text
message e = e.message

unfoldable pub error : Exception → Code
error e = e.error

module _ ⦃t : Texts⦄ where
  -- The description of `errno` is the format of the message, with no arguments.
  unfoldable pub unix_default : ℤ → Exception
  unfolding atmi_exception
  unix_default e = record (atmi_exception (t.strerror e) []) { class = unix; error = errno e }

  unfoldable pub field_default : FmlError → Exception
  unfolding field_exception
  field_default e = field_exception e (bytes "FML fml error occured.") []

  -- Its `what ()` is the message alone.
  unfoldable pub buffer_default : FmlError → Exception
  unfolding atmi_exception
  buffer_default e = record (atmi_exception (bytes "FML buffer error occured.") []) {
    class = buffer;
    error = ferror e;
  }

  -- `buffer_exception::error_message`, of the exception's code.
  unfoldable pub buffer_error_message : FmlError → Text
  buffer_error_message e = t.fstrerror32 e

  -- `tuxedo_exception::error_detail` and `error_message`, of the exception's code.
  unfoldable pub error_detail : Exception → Text
  error_detail e = t.tpstrerrordetail e.detail

  unfoldable pub tuxedo_error_message : Errno → Text
  tuxedo_error_message e = t.tpstrerror e
