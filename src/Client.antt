-- ===== src/Client.antt =====
-- include/atmi/abstract_client.hpp and src/abstract_client.cpp: the class `abstract_client`, which
-- joins an application and leaves it.
pub mod Authentication
pub mod Factories
pub mod Getters
pub mod Joins
pub mod Prompts
pub mod Constructs
pub mod Contexts
use cpp_atmi.Prelude.{
  ℕ, suc, ◌++◌, Bool, true, false, not, Option, none, some, [], ◌∷◌, ◌==◌, if◌then◌else◌,
}
use cpp_atmi.Prelude.Int.{ℤ, pos, minus_one, is_neg, is_pos, eqb}
use cpp_atmi.Prelude.Lists.{length, take}
use cpp_atmi.Atmi.Codes.{Constants, Errno, Auth, tpeperm, tpsysauth, tpappauth}
use cpp_atmi.Atmi.Texts.{Text, Texts, str, num, bytes, strncpy, c_str}
use cpp_atmi.Atmi.Calls.{Atmi, Queueing, Qctl, Ptr, Tpinit, Joining}
use cpp_atmi.Exceptions.{atmi_exception, tuxedo_exception}
use cpp_atmi.Method.{
  Method, Outcome, ok, err, pure, throw, this, assign, reads, calls, does, ◌>>=◌, ◌>>◌, when, on,
}
use Authentication.{Passwds, ask_passwds, put_apasswd, put_spasswd}
use cpp_atmi.Tuxedo.{Tuxedo, construct, destroy, message, set_context, switch_context}
use cpp_atmi.Transaction.{Transaction}
use cpp_atmi.Transaction
use cpp_atmi.Queue.{Queue}
use cpp_atmi.Queue
use cpp_atmi.Queue.Settings

-- `tpinfo` is what `_tpinfo` points to.
pub record AbstractClient : Type 0 where
  pub tuxedo : Tuxedo
  pub open tuxedo use *
  pub name : Text
  pub tuxconfig : Text
  pub tpinfo : Tpinit

abbrev pub super : {W A : Type 0} → Method Tuxedo W A → Method AbstractClient W A
super m = on (λ c. c.tuxedo) (λ t c. record c { tuxedo = t }) m

abbrev assign_tpinfo : {W : Type 0} → (Tpinit → Tpinit) → Method AbstractClient W (Unit {0})
assign_tpinfo f = assign (λ c. record c { tpinfo = f c.tpinfo })

-- The TPINIT in memory of TPINITNEED(size): its data ends behind `size` bytes.
unfoldable pub allotted : ℕ → Tpinit → Tpinit
allotted size raw = record raw { data_bytes = take size raw.data_bytes }

module _ {W : Type 0} ⦃j : Joining W⦄ where
  -- The user that a client without a user name has.
  unfoldable pub log_name : W → Text
  log_name w = elim (j.getenv (bytes "LOGNAME") w) [ none ↦ bytes "void" | some s ↦ s ]

  -- The user, the group and the client.
  unfoldable pub put_names :
      ⦃k : Constants⦄ → Option Text → Option Text → Option Text → W → Tpinit → Tpinit
  unfolding log_name
  put_names ⦃k⦄ cltname usr group w info = record info {
    usrname = strncpy info.usrname (elim usr [ none ↦ log_name w | some u ↦ u ]) k.maxtident;
    grpname = elim group [ none ↦ info.grpname | some g ↦ strncpy info.grpname g k.maxtident ];
    cltname = elim cltname [ none ↦ info.cltname | some c ↦ strncpy info.cltname c k.maxtident ];
  }

  module _ ⦃a : Atmi W⦄ ⦃t : Texts⦄ ⦃k : Constants⦄ where
    -- `if ( tuxconfig != NULL )`: the client runs in several contexts.
    unfoldable pub configure : Option Text → Method AbstractClient W (Unit {0})
    configure none = pure tt
    configure (some tuxconfig) = do
      assign (λ c. record c { tuxconfig = tuxconfig })
      assign_tpinfo (λ i. record i { flags = k.tpmulticontexts })
      rc ← calls (j.tuxputenv (bytes "TUXCONFIG=" ++ tuxconfig))
      when (not (eqb rc (pos 0)))
          (throw (atmi_exception (bytes "failed to put env varaible %s.") (str tuxconfig ∷ [])))

    unfoldable pub denied : Errno → Method AbstractClient W (Unit {0})
    unfolding message
    denied tpeperm = throw (
        tuxedo_exception tpeperm (bytes "TPINIT access to DOMAIN denied. Check user and password.")
          [])
    denied e = do
      catd ← this (λ c. c.catd)
      throw (
          tuxedo_exception e
            (message catd 39
              "TPINIT failed. Is application started ? Is either TUXCONFIG or WSNADDR env var Set ? Check ULOG for more.")
            [])

    get_context : Method AbstractClient W (ℤ × ℤ)
    get_context c w = let (rc, ctxt, w') = a.tpgetctxt w in (ok (rc, ctxt), c, w')

    -- The `switch` on the context of the thread.
    unfoldable pub take_context : ℤ → Method AbstractClient W (Unit {0})
    unfolding set_context
    take_context ctxt =
        if eqb ctxt k.tpsinglecontext
        then super (set_context k.tpsinglecontext)
        else if eqb ctxt k.tpnullcontext
        then (reads a.tperrno >>= λ e.
            throw (tuxedo_exception e (bytes "tpgetctxt returned TPNULLCONTEXT.") []))
        else if eqb ctxt k.tpinvalidcontext
        then (reads a.tperrno >>= λ e.
            throw (tuxedo_exception e (bytes "tpgetctxt returned failed.") []))
        else super (set_context ctxt)

    -- From the call of tpinit on. `%s-context-%d` stands for three insertions into a stream.
    unfoldable pub join : Method AbstractClient W (Unit {0})
    unfolding get_context take_context denied
    join = do
      info ← this (λ c. c.tpinfo)
      rc ← calls (j.tpinit info)
      e ← reads a.tperrno
      if is_neg rc then denied e else do
        current ← get_context
        when (not (eqb current.0 minus_one)) (take_context current.1)
        assign λ c. record c {
          name =
              t.format (bytes "%s-context-%d")
                (str (c_str c.tpinfo.cltname) ∷ num c.tuxedo.context ∷ []);
        }

    -- The constructor from the `if` on tuxconfig on.
    unfoldable pub configure_and_join :
        Option Text → Option Text → Option Text → Option Text → Method AbstractClient W (Unit {0})
    configure_and_join cltname usr group tuxconfig = do
      configure tuxconfig
      names ← reads (put_names cltname usr group)
      assign_tpinfo names
      join

    -- A constructor that throws destroys the base.
    unfoldable pub unwind : Outcome (Unit {0}) × AbstractClient × W → Outcome AbstractClient × W
    unwind (ok v, c, w) = (ok c, w)
    unwind (err e, c, w) = (err e, destroy c.tuxedo w)

    -- The constructor from the use of the memory for the TPINIT on. `none` is an access outside
    -- of memory.
    unfoldable pub fill_and_join :
        Option Text
        → Option Text
        → Option Text
        → Option Text
        → Passwds
        → Tpinit
        → Tuxedo
        → Ptr
        → W
        → Option (Outcome AbstractClient × W)
    unfolding put_apasswd put_spasswd unwind
    fill_and_join cltname usr group tuxconfig ps raw base none w = none
    fill_and_join cltname usr group tuxconfig ps raw base (some p) w = elim (put_apasswd ps raw w) [
      | none ↦ none
      | some info ↦ some (
          unwind (
            configure_and_join cltname usr group tuxconfig
              (record {
                tuxedo = base;
                name = [];
                tuxconfig = [];
                tpinfo = put_spasswd ps.spasswd info w;
              })
              w))
    ]

    -- `abstract_client ( cltname, usr, sys_passwd, app_passwd, group, tuxconfig )`: `raw` is what
    -- the memory holds where the TPINIT is allocated.
    unfoldable pub new :
        Option Text
        → Option Text
        → Option Text
        → Option Text
        → Option Text
        → Option Text
        → Tpinit
        → W
        → Option (Outcome AbstractClient × W)
    unfolding construct ask_passwds fill_and_join allotted
    new cltname usr sys_passwd app_passwd group tuxconfig raw w =
        let (base, w₁) = construct w in
        let (auth, w₂) = j.tpchkauth w₁ in
        elim (ask_passwds auth sys_passwd app_passwd w₂) [
          | none ↦ none
          | some (ps, w₃) ↦
              (let size : ℕ = 10 in
                let (p, w₄) = a.tpalloc (bytes "TPINIT") none (j.tpinitneed size) w₃ in
                fill_and_join cltname usr group tuxconfig ps (allotted size raw) base p w₄)
        ]

    -- The destructor, up to that of the base.
    unfoldable pub leave : Method AbstractClient W (Unit {0})
    unfolding switch_context
    leave = super switch_context >> does j.tpterm

-- multi_context
unfoldable pub multi_context : AbstractClient → Bool
multi_context c = is_pos c.tuxedo.context
