-- ===== src/Tests/Domain.antt =====
-- A small domain with one queue, one message buffer and one typed buffer, for the examples.
use cpp_atmi.Prelude.{
  Bool, true, false, ◌+◌, ◌==◌, ◌&&◌, ℕ, zero, suc, Option, none, some, List, [], ◌∷◌, ◌++◌, leb,
  if◌then◌else◌,
}
use cpp_atmi.Prelude.Int.{ℤ, pos, negsuc, minus_one, eqb}
use cpp_atmi.Prelude.Lists.{length, drop, get_elem?}
use cpp_atmi.Atmi.Codes.{
  Constants, Errno, Diagno, FmlError, fnospace, tpediagnostic, tpelimit, tpesvcerr, tpetime,
  tpenoent, qmenomsg, qmeinval,
}
use cpp_atmi.Atmi.Codes
use cpp_atmi.Atmi.Texts.{Text, Texts, bytes}
use cpp_atmi.Atmi.Calls.{Atmi, Services, Queueing, Qctl, Reply, Export, Ptr}
use cpp_atmi.Atmi.Fml.{Fml}
use cpp_atmi.Tuxedo.{Tuxedo}
use cpp_atmi.Queue.{Queue}
use cpp_atmi.QueueStream.{QueueStream}
use cpp_atmi.Tests.Argv.{Argv}

-- The queue, what an abort restores, whether there is a transaction, the message in the buffer, the occurences of the field, the
-- context of the thread, how many calls of a service will time out, whether the program was not
-- interrupted, its command line, and its terminal.
pub record World : Type 0 where
  pub errno : Errno
  pub fml_error : FmlError
  pub contents : List Text
  pub saved : List Text
  pub pending : Bool
  pub message : Text
  pub values : List Text
  pub current : ℤ
  pub delays : ℕ
  pub running : Bool
  pub argv : Argv
  pub terminal : Text

instance abbrev pub constants : Constants
constants = record {
  long_bits = 63;
  tpnoflags = 0;
  tpnotran = 8;
  tpex_string = 1;
  tpmulticontexts = 32;
  tpqwait = 1;
  tpqreplyq = 2;
  tpqdeliveryqos = 4;
  tpqreplyqos = 8;
  tpqcorrid = 16;
  tpqgetbycorrid = 32;
  tpqqosdefaultpersist = 1;
  tpqqospersistent = 2;
  tpqqosnonpersistent = 4;
  qmenomsg_value = negsuc 9;
  tpsinglecontext = pos 0;
  tpnullcontext = negsuc 1;
  tpinvalidcontext = minus_one;
  tmqnamelen = 15;
  tmcorridlen = 32;
  maxtident = 30;
  maxecidlen = 40;
  badfldid = pos 0;
}

instance abbrev pub texts : Texts
texts = record {
  format = λ msg args. msg;
  catgets = λ catd set n default. default;
  strerror = λ n. [];
  tpstrerror = λ e. [];
  tpstrerrordetail = λ n. [];
  fstrerror32 = λ e. [];
}

-- A message that begins with S is a string.
abbrev pub kind : Text → Text
kind [] = bytes "FML32"
kind (c ∷ cs) = if c == 83 then bytes "STRING" else bytes "FML32"

instance abbrev pub atmi : Atmi World
atmi = record {
  tperrno = λ w. w.errno;
  tperrordetail = λ w. pos 0;
  tpurcode = λ w. pos 5;
  catopen = λ w. (1, w);
  catclose = λ c w. w;
  tpalloc = λ type sub n w. (some 1, w);
  tprealloc = λ p n w. (some 1, w);
  tpfree = λ p w. w;
  tpbegin = λ timeout w.
      if w.pending
      then (minus_one, w)
      else (pos 0, record w { saved = w.contents; pending = true });
  tpcommit = λ w.
      if w.pending
      then (pos 0, record w { saved = w.contents; pending = false })
      else (minus_one, w);
  tpabort = λ w.
      if w.pending
      then (pos 0, record w { contents = w.saved; pending = false })
      else (minus_one, w);
  tpgetctxt = λ w. (pos 0, w.current, w);
  tpsetctxt = λ ctxt w. (pos 0, record w { current = ctxt });
  tptypes = λ p w. (pos 0, kind w.message, w);
}

-- The calls that time out before the one that succeeds.
abbrev answer : ℕ → Ptr → ℕ → World → Reply World
answer zero p n w = record { rc = pos 0; buf = p; len = n; world = w }
answer (suc left) p n w = record {
  rc = minus_one;
  buf = p;
  len = n;
  world = record w { errno = tpetime; delays = left };
}

instance abbrev pub services : Services World
services = record {
  tpcall = λ svc idata ilen p n flags w. answer w.delays p n w;
  tpacall = λ svc idata ilen flags w. (pos 7, w);
  tpgetrply = λ cd p n flags w. (cd, answer w.delays p n w);
  tpcancel = λ cd w. (minus_one, record w { errno = tpenoent });
  tppost = λ name p n flags w. (minus_one, record w { errno = tpenoent });
  sleep = λ n w. w;
}

-- The messages are `ms` from now on, and for good outside of a transaction.
abbrev pub holding : List Text → World → World
holding ms w = record w { contents = ms; saved = if w.pending then w.saved else ms }

-- The length of a message is 1, or 0 without data.
abbrev pub size_of : Text → ℕ
size_of [] = 0
size_of (c ∷ m) = 1

abbrev pub take_first : List Text → Qctl → Ptr → ℕ → World → Qctl × Reply World
take_first [] ctl p n w = (
  record ctl { diagnostic = qmenomsg },
  record { rc = minus_one; buf = p; len = n; world = record w { errno = tpediagnostic } },
)
take_first (m ∷ ms) ctl p n w = (
  ctl,
  record { rc = pos 0; buf = p; len = size_of m; world = record (holding ms w) { message = m } },
)

abbrev write_out : ℕ → World → Export World
write_out olen w =
    if leb (length w.message) olen
    then record { rc = pos 0; ostr = w.message; olen = length w.message; world = w }
    else record {
      rc = minus_one;
      ostr = [];
      olen = length w.message;
      world = record w { errno = tpelimit };
    }

instance abbrev pub queueing : Queueing World
queueing = record {
  stamp = λ w. [];
  tpenqueue = λ qspace name ctl p n flags w. (pos 0, ctl, holding (w.contents ++ w.message ∷ []) w);
  tpdequeue = λ qspace name ctl p n flags w. take_first w.contents ctl p n w;
  tpexport = λ p n ostr olen flags w. write_out olen w;
  tpimport = λ line len p n flags w. record {
    rc = pos 0;
    buf = p;
    len = len;
    world = record w { message = line };
  };
}

abbrev pub find : Option Text → Text → ℕ → World → ℤ × Text × ℕ × World
find none buff n w = (minus_one, buff, n, record w { fml_error = FmlError.unlisted (pos 4) })
find (some v) buff n w =
    if leb (length v) n && leb n (length buff)
    then (pos 0, v ++ drop (length v) buff, length v, w)
    else (minus_one, buff, length v, record w { fml_error = fnospace })

abbrev alloc : Option Text → ℕ → World → Option Text × ℕ × World
alloc none extra w = (none, extra, record w { fml_error = FmlError.unlisted (pos 4) })
alloc (some v) extra w = (some v, length v + extra, w)

abbrev pub at : ℤ → List Text → Option Text
at (pos i) vs = get_elem? vs i
at (negsuc i) vs = none

instance abbrev pub fml : Fml World
fml = record {
  fmltype32 = bytes "FML32";
  ferror32 = λ w. w.fml_error;
  fsizeof32 = λ p w. pos 1024;
  fused32 = λ p w. pos 1000;
  funused32 = λ p w. pos 24;
  fnum32 = λ p w. pos (length w.values);
  fchksum32 = λ p w. (pos 0, w);
  fcpy32 = λ p q w. (pos 0, w);
  foccur32 = λ p id w. (pos (length w.values), w);
  fneeded32 = λ n len w. (pos 40, w);
  fchg32 = λ p id occ v len w. (pos 0, w);
  fadd32 = λ p id v len w. (pos 0, record w { values = w.values ++ v ∷ [] });
  fdel32 = λ p id occ w. (pos 0, w);
  fget32 = λ p id occ buff len w. find (at occ w.values) buff len w;
  fgetalloc32 = λ p id occ extra w. alloc (at occ w.values) extra w;
  fgetsa32 = λ p id occ w. (at occ w.values, w);
  fldid32 = λ name w. (pos 3, w);
  fldtype32 = λ id. if eqb id (pos 3) then pos 5 else pos 6;
  ftype32 = λ id. bytes "string";
  fldno32 = λ id. id;
  fname32 = λ id w. (none, w);
  fprint32 = λ p w. w;
  fsprint32 = λ p w. ([], w);
}

abbrev pub start : List Text → World
start ms = record {
  errno = tpenoent;
  fml_error = fnospace;
  contents = ms;
  saved = ms;
  pending = false;
  message = [];
  values = [];
  current = pos 0;
  delays = 2;
  running = true;
  argv = record { rest = []; operand = none; tokens = [] };
  terminal = [];
}

abbrev pub base : Tuxedo
base = record {
  flags = 0;
  catd = 1;
  errorno = Codes.Errno.unlisted (pos 0);
  errornodetail = pos 0;
  context = pos 4;
}

abbrev pub space : Text
space = bytes "SPACE"

abbrev pub first_queue : Text
first_queue = bytes "FIRST"

abbrev pub queue : Text → Queue
queue name = record {
  tuxedo = base;
  qspace = some space;
  name = some name;
  diagno = none;
  qctl = record {
    flags = 1;
    replyqueue = [];
    delivery_qos = 1;
    reply_qos = 1;
    corrid = [];
    diagnostic = qmeinval;
  };
}

abbrev pub stream : QueueStream
stream = record { tuxedo = base; count = 9; buffer_size = 2 }
