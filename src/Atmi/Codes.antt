-- ===== src/Atmi/Codes.antt =====
-- The names that the program uses of atmi.h and fml32.h. A `switch` over two equal case labels
-- does not compile, so the codes are enumerations, with a number for any code that has no name.
use cpp_atmi.Prelude.{ℕ}
use cpp_atmi.Prelude.Int.{ℤ}

-- tperrno
pub data Errno : Type 0 where
  tpeinval tpeperm tpenoent tpeitype tpeotype tpetran tpeproto tpesystem tpeos tpelimit : Errno
  tpeblock tpgotsig tpesvcerr tpetime tpesvcfail tpediagnostic : Errno
  unlisted : ℤ → Errno

-- TPQCTL.diagnostic
pub data Diagno : Type 0 where
  qmeinval qmebadrmid qmenotopen qmetran qmebadmsgid qmesystem qmeos qmeaborted : Diagno
  qmeproto qmebadqueue qmenospace qmerelease qmeshare qmenomsg : Diagno
  unlisted : ℤ → Diagno

-- Ferror32
pub data FmlError : Type 0 where
  fnospace : FmlError
  unlisted : ℤ → FmlError

-- What tpchkauth returns: TPSYSAUTH, TPAPPAUTH, or another number, TPNOAUTH among them.
pub data Auth : Type 0 where
  tpsysauth tpappauth : Auth
  unlisted : ℤ → Auth

-- The constants: the value bits of a `long`, flags and QoS levels as bit patterns, the value of
-- QMENOMSG as an `int`, the special contexts, and the sizes of name fields.
pub record Constants : Type 0 where
  pub long_bits : ℕ
  pub tpnoflags : ℕ
  pub tpnotran : ℕ
  pub tpex_string : ℕ
  pub tpmulticontexts : ℕ
  pub tpqwait : ℕ
  pub tpqreplyq : ℕ
  pub tpqdeliveryqos : ℕ
  pub tpqreplyqos : ℕ
  pub tpqcorrid : ℕ
  pub tpqgetbycorrid : ℕ
  pub tpqqosdefaultpersist : ℕ
  pub tpqqospersistent : ℕ
  pub tpqqosnonpersistent : ℕ
  pub qmenomsg_value : ℤ
  pub tpsinglecontext : ℤ
  pub tpnullcontext : ℤ
  pub tpinvalidcontext : ℤ
  pub tmqnamelen : ℕ
  pub tmcorridlen : ℕ
  pub maxtident : ℕ
  pub maxecidlen : ℕ
  pub badfldid : ℤ
