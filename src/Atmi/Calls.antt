-- ===== src/Atmi/Calls.antt =====
-- The calls of Tuxedo. `W` is the state of the Tuxedo client library and of all it talks to:
-- buffers, queues, services, the transaction in progress, and the thread's tperrno.
-- `char *` and `FBFR32 *` are pointers, NULL or an address; an in/out argument of a call is an
-- argument and a part of its result. Lengths are not negative.
use cpp_atmi.Prelude.{ℕ, Bool, Option}
use cpp_atmi.Prelude.Int.{ℤ}
use cpp_atmi.Atmi.Codes.{Errno, Diagno, Auth}
use cpp_atmi.Atmi.Texts.{Text}

abbrev pub Ptr : Type 0
Ptr = Option ℕ

-- What a call that takes `char **` and `long *` leaves behind.
pub record Reply (W : Type 0) : Type 0 where
  pub rc : ℤ
  pub buf : Ptr
  pub len : ℕ
  pub world : W

pub record Atmi (W : Type 0) : Type 0 where
  pub tperrno : W → Errno
  -- tperrordetail(0)
  pub tperrordetail : W → ℤ
  pub tpurcode : W → ℤ
  -- catopen("atmi++", 0)
  pub catopen : W → ℕ × W
  pub catclose : ℕ → W → W
  -- tpalloc(type, subtype, size)
  pub tpalloc : Text → Option Text → ℕ → W → Ptr × W
  pub tprealloc : Ptr → ℕ → W → Ptr × W
  pub tpfree : ℕ → W → W
  pub tpbegin : ℤ → W → ℤ × W
  pub tpcommit : W → ℤ × W
  pub tpabort : W → ℤ × W
  -- tpgetctxt(&ctxt, 0): the result, and the context that it stores
  pub tpgetctxt : W → ℤ × ℤ × W
  pub tpsetctxt : ℤ → W → ℤ × W
  -- tptypes(ptr, type, NULL): the result, and the type that it stores
  pub tptypes : Ptr → W → ℤ × Text × W

pub record Services (W : Type 0) : Type 0 where
  -- tpcall(svc, idata, ilen, odata, olen, flags)
  pub tpcall : Text → Ptr → ℕ → Ptr → ℕ → ℕ → W → Reply W
  pub tpacall : Text → Ptr → ℕ → ℕ → W → ℤ × W
  -- tpgetrply(cd, odata, olen, flags): the descriptor that it stores comes first
  pub tpgetrply : ℤ → Ptr → ℕ → ℕ → W → ℤ × Reply W
  pub tpcancel : ℤ → W → ℤ × W
  pub tppost : Option Text → Ptr → ℕ → ℕ → W → ℤ × W
  pub sleep : ℤ → W → W

-- The fields of TPQCTL that the program names. `replyqueue` and `corrid` are character arrays.
pub record Qctl : Type 0 where
  pub flags : ℕ
  pub replyqueue : Text
  pub delivery_qos : ℕ
  pub reply_qos : ℕ
  pub corrid : Text
  pub diagnostic : Diagno

-- What tpexport(ibuf, ilen, ostr, olen, flags) leaves behind: the characters of `ostr`.
pub record Export (W : Type 0) : Type 0 where
  pub rc : ℤ
  pub ostr : Text
  pub olen : ℕ
  pub world : W

pub record Queueing (W : Type 0) : Type 0 where
  -- getpid(), pthread_self() and time(NULL), printed one after the other
  pub stamp : W → Text
  -- tpenqueue(qspace, qname, ctl, data, len, flags)
  pub tpenqueue : Text → Text → Qctl → Ptr → ℕ → ℕ → W → ℤ × Qctl × W
  -- tpdequeue(qspace, qname, ctl, data, len, flags)
  pub tpdequeue : Text → Text → Qctl → Ptr → ℕ → ℕ → W → Qctl × Reply W
  pub tpexport : Ptr → ℕ → Text → ℕ → ℕ → W → Export W
  -- tpimport(istr, ilen, obuf, olen, flags)
  pub tpimport : Text → ℕ → Ptr → ℕ → ℕ → W → Reply W

-- The fields of TPINIT that the program names: character arrays, and the `datalen` bytes of `data`.
pub record Tpinit : Type 0 where
  pub usrname : Text
  pub cltname : Text
  pub passwd : Text
  pub grpname : Text
  pub flags : ℕ
  pub datalen : ℕ
  pub data_bytes : Text

pub record Joining (W : Type 0) : Type 0 where
  pub tpchkauth : W → Auth × W
  -- getpass(prompt): `false` is NULL, and the password stands in a static buffer.
  pub getpass : Text → W → Bool × W
  -- The bytes of that buffer, which every call writes to.
  pub prompted : W → Text
  -- TPINITNEED(u), the size of a TPINIT with `u` bytes of data
  pub tpinitneed : ℕ → ℕ
  pub getenv : Text → W → Option Text
  pub tuxputenv : Text → W → ℤ × W
  pub tpinit : Tpinit → W → ℤ × W
  pub tpterm : W → W

pub record CallInfos (W : Type 0) : Type 0 where
  -- tpgetcallinfo(msg, &obuf, 0): the result, and the pointer that it stores
  pub tpgetcallinfo : Ptr → Ptr → W → ℤ × Ptr × W
  -- tpsetcallinfo(msg, ibuf, 0)
  pub tpsetcallinfo : Ptr → Ptr → W → ℤ × W
