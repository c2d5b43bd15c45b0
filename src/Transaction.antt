-- ===== src/Transaction.antt =====
-- include/atmi/transaction.hpp and src/transaction.cpp: the class `transaction`, a client of a
-- service.
pub mod Retries
pub mod Descriptors
pub mod Fielded
pub mod Getters
use cpp_atmi.Prelude.{
  ℕ, zero, suc, ◌+◌, ◌≤◌, String, Bool, not, Option, none, some, List, [], ◌∷◌, ltb, if◌then◌else◌,
}
use cpp_atmi.Prelude.Int.{ℤ, pos, minus_one, is_neg, is_pos, eqb, pos_part}
use cpp_atmi.Prelude.Lists.{length}
use cpp_atmi.Atmi.Codes.{Constants, Errno, tpetime, tpesvcerr}
use cpp_atmi.Atmi.Codes
use cpp_atmi.Atmi.Texts.{Text, Texts, Arg, str, bytes}
use cpp_atmi.Atmi.Calls.{Atmi, Services, Ptr, Reply}
use cpp_atmi.Exceptions.{tuxedo_exception}
use cpp_atmi.Method.{
  Method, Outcome, ok, err, pure, throw, this, assign, reads, does, calls, ◌>>=◌, ◌>>◌, when, on,
}
use cpp_atmi.Tuxedo.{Tuxedo, construct, destroy, update_errno, switch_context, handle_tperrno}

pub record Transaction : Type 0 where
  pub tuxedo : Tuxedo
  pub open tuxedo use *
  pub service : Text
  pub call_descriptor : ℤ

-- The object, and what a call changes through pointers: `*odata`, `*olen` and `*urcode`, where
-- `urcode` may be NULL. `rc` is the variable of `call`.
pub record Caller : Type 0 where
  pub transaction : Transaction
  pub buf : Ptr
  pub len : ℕ
  pub urcode : Option ℤ
  pub rc : ℤ

-- `int *urcode`, where it points to a variable.
abbrev pub store : Option ℤ → ℤ → Option ℤ
store none u = none
store (some old) u = some u

module _ {W A : Type 0} where
  abbrev pub super : Method Tuxedo W A → Method Transaction W A
  super m = on (λ t. t.tuxedo) (λ b t. record t { tuxedo = b }) m

  abbrev pub on_transaction : Method Transaction W A → Method Caller W A
  on_transaction m = on (λ x. x.transaction) (λ t x. record x { transaction = t }) m

module _ {W : Type 0} ⦃a : Atmi W⦄ ⦃t : Texts⦄ where
  -- `transaction ( const char *service )`. A constructor that throws destroys the base.
  unfoldable pub new : ⦃k : Constants⦄ → Text → W → Outcome Transaction × W
  new ⦃k⦄ service w =
      let (base, w') = construct w in
      if ltb (k.maxtident + 2) (length service)
      then (
        err (
            tuxedo_exception (Codes.Errno.unlisted (pos 0))
              (bytes "Given service name '%s' is too long.") (str service ∷ [])),
        destroy base w',
      )
      else (ok (record { tuxedo = base; service = service; call_descriptor = pos 0 }), w')

  -- `rc = handle_tperrno ( tperrno, msg, _service.c_str() )`, if `rc` is negative.
  unfoldable pub check : String → ℤ → Method Transaction W ℤ
  check msg rc = if not (is_neg rc) then pure rc else do
    e ← reads a.tperrno
    service ← this (λ t. t.service)
    super (handle_tperrno e (bytes msg) (str service ∷ []))

  module _ ⦃s : Services W⦄ where
    call_tpcall : Ptr → ℕ → Method Caller W ℤ
    call_tpcall idata ilen x w =
        let r = s.tpcall x.transaction.service idata ilen x.buf x.len x.transaction.flags w in
        (ok r.rc, record x { buf = r.buf; len = r.len; rc = r.rc }, r.world)

    -- The switch after a failed attempt.
    unfoldable pub pause : ℤ → Errno → Method Caller W (Unit {0})
    pause delay tpetime = when (is_pos delay) (does (s.sleep delay))
    pause delay tpesvcerr = when (is_pos delay) (does (s.sleep delay))
    pause delay e = pure tt

    -- The body of the loop of `call`.
    unfoldable pub attempt : Ptr → ℕ → ℤ → Method Caller W (Unit {0})
    unfolding call_tpcall pause
    attempt idata ilen delay = do
      rc ← call_tpcall idata ilen
      e ← reads a.tperrno
      u ← reads a.tpurcode
      if is_neg rc then pause delay e else assign (λ x. record x { urcode = store x.urcode u })

    -- The loop, when `rest` attempts may follow the next one: `retries - retry`.
    unfoldable pub attempts : ℕ → Ptr → ℕ → ℤ → Method Caller W (Unit {0})
    attempts zero idata ilen delay = attempt idata ilen delay
    attempts (suc rest) idata ilen delay = do
      attempt idata ilen delay
      rc ← this (λ x. x.rc)
      if eqb rc (pos 0) then pure tt else attempts rest idata ilen delay

    unfoldable pub finish_call : Method Caller W ℤ
    unfolding check update_errno
    finish_call = do
      on_transaction (super update_errno)
      rc ← this (λ x. x.rc)
      on_transaction (check "TPCALL to %s failed." rc)

    -- `call ( idata, ilen, odata, olen, urcode, retries, delay )`
    unfoldable pub call : Ptr → ℕ → ℤ → ℤ → Method Caller W ℤ
    unfolding finish_call
    call idata ilen retries delay = do
      on_transaction (super switch_context)
      attempts (pos_part retries) idata ilen delay
      finish_call

    -- `call ( char **idata, long *ilen, ... )`: the same buffer goes out and comes back.
    unfoldable pub call_in_place : ℤ → ℤ → Method Caller W ℤ
    call_in_place retries delay x = call x.buf x.len retries delay x

    call_tpacall : Ptr → ℕ → Method Transaction W ℤ
    call_tpacall idata ilen t w =
        let (rc, w') = s.tpacall t.service idata ilen t.flags w in (ok rc, t, w')

    -- What follows `tpacall`, in both versions of `acall`.
    unfoldable pub record_descriptor : ℤ → Method Transaction W ℤ
    unfolding check update_errno
    record_descriptor rc = do
      super update_errno
      if is_neg rc
          then check "TPACALL to %s failed." rc
          else (assign (λ t. record t { call_descriptor = rc }) >>= λ _. pure rc)

    -- `acall ( char *idata, long ilen )`
    unfoldable pub acall : Ptr → ℕ → Method Transaction W ℤ
    unfolding record_descriptor call_tpacall
    acall idata ilen = do
      assign (λ t. record t { call_descriptor = minus_one })
      super switch_context
      rc ← call_tpacall idata ilen
      record_descriptor rc

    -- `tpgetrply` on the descriptor of the object, or on that of the caller. The descriptor of
    -- the object is 0 if it is the one that was answered.
    unfoldable pub get_reply : Option ℤ → Caller → W → ℤ × Option ℤ × Caller × W
    get_reply none x w =
        let (d, r) = s.tpgetrply x.transaction.call_descriptor x.buf x.len x.transaction.flags w in
        (
          r.rc,
          none,
          record x {
            transaction = record x.transaction { call_descriptor = d };
            buf = r.buf;
            len = r.len;
          },
          r.world,
        )
    get_reply (some cd) x w =
        let (d, r) = s.tpgetrply cd x.buf x.len x.transaction.flags w in
        let own = x.transaction.call_descriptor in
        (
          r.rc,
          some d,
          record x {
            transaction = record x.transaction {
              call_descriptor = if eqb d own then pos 0 else own;
            };
            buf = r.buf;
            len = r.len;
          },
          r.world,
        )

    unfoldable pub finish_reply : ℤ → Method Caller W ℤ
    unfolding check update_errno
    finish_reply rc = do
      u ← reads a.tpurcode
      assign (λ x. record x { urcode = store x.urcode u })
      on_transaction (super update_errno)
      on_transaction (check "TPGETREPLY from %s failed." rc)

    -- `reply ( data, len, urcode, cd )`; the result has the variable behind `cd` first.
    unfoldable pub reply : Option ℤ → Caller → W → Option ℤ × Outcome ℤ × Caller × W
    unfolding get_reply finish_reply
    reply cd x w =
        let (rc, cd', x₁, w₁) = get_reply cd x w in
        let (r, x₂, w₂) = finish_reply rc x₁ w₁ in (cd', r, x₂, w₂)

    -- `cancel ( cd )`: 0 stands for the descriptor of the object. The message has no argument
    -- for its `%s`.
    unfoldable pub cancel : ℤ → Method Transaction W ℤ
    unfolding update_errno
    cancel cd = do
      own ← this (λ t. t.call_descriptor)
      rc ← calls (s.tpcancel (if eqb cd (pos 0) then own else cd))
      super update_errno
      e ← reads a.tperrno
      if is_neg rc
          then super (handle_tperrno e (bytes "TPCANCEL of a call to %s failed.") [])
          else pure rc
