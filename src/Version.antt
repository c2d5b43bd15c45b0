-- ===== src/Version.antt =====
-- src/atmi++.cpp: the version of the library.
use cpp_atmi.Prelude.{Option, none, some}
use cpp_atmi.Atmi.Texts.{Text, bytes}

-- The argument is the value of CPP_ATMI_VERSION, if the build defines it.
unfoldable pub cpp_atmi_version : Option Text → Text
cpp_atmi_version none = bytes "missing CPP_ATMI_VERSION define. Re-run configure"
cpp_atmi_version (some version) = version
