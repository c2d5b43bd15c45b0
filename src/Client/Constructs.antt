-- ===== src/Client/Constructs.antt =====
-- How the constructor of a client ends.
use cpp_atmi.Prelude.{◌≡◌, ◌≢◌, refl, arith, ◌∙◌, ◌≤◌, Option, none, some, []}
use cpp_atmi.Prelude.Int.{pos}
use cpp_atmi.Prelude.Lists.{length, length-take}
use cpp_atmi.Atmi.Codes.{Constants, tpappauth}
use cpp_atmi.Atmi.Texts.{Text, Texts, IsPlain, bytes}
use cpp_atmi.Atmi.Calls.{Atmi, Ptr, Tpinit, Joining}
use cpp_atmi.Method.{Outcome, ok, err, Post}
use cpp_atmi.Tuxedo.{Tuxedo, construct, destroy}
use cpp_atmi.Client.{AbstractClient, new, allotted, fill_and_join, unwind, configure_and_join}
use cpp_atmi.Client.Authentication.{
  Passwd, Passwds, put_apasswd, put_spasswd, ask_passwds, ask_system, array, ask,
}
use cpp_atmi.Client.Joins.{Ends, Fails, configure_and_join-Post}
use cpp_atmi.Client.Prompts.{Fits, of_given, ask_passwds-Puts, put_apasswd-overflows}

module _ {W : Type 0} ⦃j : Joining W⦄ ⦃a : Atmi W⦄ ⦃t : Texts⦄ ⦃k : Constants⦄ where
  -- The constructor returns with a client that has joined, or throws when the base is destroyed;
  -- in both cases it stays within the memory.
  abbrev pub Constructs :
      Option Text → Option Text → Text → Option (Outcome AbstractClient × W) → Type 0
  Constructs usr tuxconfig old none = ⊥
  Constructs usr tuxconfig old (some (ok c, w)) = Ends usr tuxconfig old c w
  Constructs usr tuxconfig old (some (err e, w)) =
      (c : AbstractClient) × (w' : W) × Fails tuxconfig e c w' × (w ≡ destroy c.tuxedo w')

  unwind-Constructs :
      (usr tuxconfig : Option Text) (old : Text) (o : Outcome (Unit {0}) × AbstractClient × W)
      → Post (λ v. Ends usr tuxconfig old) (Fails tuxconfig) o
      → Constructs usr tuxconfig old (some (unwind o))
  unfolding unwind
  unwind-Constructs usr tuxconfig old (ok v, c, w) h = h
  unwind-Constructs usr tuxconfig old (err e, c, w) h = (c, w, h, refl)

  -- The allocation of a TPINIT succeeds.
  abbrev pub IsAllocating : Joining W → Atmi W → Type 0
  IsAllocating j a = (w : W) → (a.tpalloc (bytes "TPINIT") none (j.tpinitneed 10) w).0 ≢ none

  put_spasswd-usrname :
      (spasswd : Passwd) (info : Tpinit) (w : W)
      → (put_spasswd spasswd info w).usrname ≡ info.usrname
  unfolding put_spasswd
  put_spasswd-usrname spasswd info w = ground arith

  fill_and_join-Constructs :
      (cltname usr group tuxconfig : Option Text) (ps : Passwds) (raw info : Tpinit) (base : Tuxedo)
      (p : Ptr) (w : W)
      → base.context ≡ pos 0
      → k.tpsinglecontext ≢ k.tpnullcontext
      → k.tpsinglecontext ≢ k.tpinvalidcontext
      → p ≢ none
      → put_apasswd ps raw w ≡ some info
      → info.usrname ≡ raw.usrname
      → Constructs usr tuxconfig raw.usrname
          (fill_and_join cltname usr group tuxconfig ps raw base p w)
  unfolding fill_and_join
  fill_and_join-Constructs cltname usr group tuxconfig ps raw info base none w fresh n i p put
        same =
      absurd (p refl)
  fill_and_join-Constructs cltname usr group tuxconfig ps raw info base (some q) w fresh n i p put
        same =
      let filled = put_spasswd ps.spasswd info w in
      let c : AbstractClient = record {
        tuxedo = base;
        name = [];
        tuxconfig = [];
        tpinfo = filled;
      } in
      rw (fill_and_join, put)
        (unwind-Constructs usr tuxconfig raw.usrname
          (configure_and_join cltname usr group tuxconfig c w)
          (rw (← (put_spasswd-usrname ps.spasswd info w ∙ same))
            (configure_and_join-Post cltname usr group tuxconfig c w fresh refl n i)))

  -- Suppose that the allocation succeeds, the context of a single-context client is a context,
  -- and the application password, where one is required, is passed and fits into 10 bytes of
  -- data with its NUL. The constructor then stays within the memory, and returns with a client
  -- that has joined the application, or throws and destroys the base. The client has joined
  -- right after the configuration that was passed was put into the environment as TUXCONFIG, and
  -- has TPMULTICONTEXTS then. It has the context that tpgetctxt found, or none where that
  -- failed, and its TPINIT the user's name or that of the process. A throw is for a
  -- configuration that tuxputenv did not take, with the code of tpinit, or for a thread without
  -- a context.
  pub new-Constructs :
      (cltname usr sys_passwd app_passwd group tuxconfig : Option Text) (raw : Tpinit) (w : W)
      → IsAllocating j a
      → k.tpsinglecontext ≢ k.tpnullcontext
      → k.tpsinglecontext ≢ k.tpinvalidcontext
      → ((j.tpchkauth (construct w).1).0 ≡ tpappauth → Fits app_passwd (allotted 10 raw))
      → Constructs usr tuxconfig raw.usrname
          (new cltname usr sys_passwd app_passwd group tuxconfig raw w)
  unfolding new construct allotted
  new-Constructs cltname usr sys_passwd app_passwd group tuxconfig raw w alloc n i fits =
      let (base, w₁) = construct w in
      let (auth, w₂) = j.tpchkauth w₁ in
      let (ps, w₃, asked, puts) =
        ask_passwds-Puts auth sys_passwd app_passwd (allotted 10 raw) w₂ fits in
      let (p, w₄) = a.tpalloc (bytes "TPINIT") none (j.tpinitneed 10) w₃ in
      let (info, put, same) = puts w₄ in
      rw (new, asked)
        (fill_and_join-Constructs cltname usr group tuxconfig ps (allotted 10 raw) info base p w₄
          refl n i (alloc w₃) put same)

  fill_and_join-overflows :
      (cltname usr group tuxconfig : Option Text) (ps : Passwds) (raw : Tpinit) (base : Tuxedo)
      (p : Ptr) (w : W)
      → put_apasswd ps raw w ≡ none
      → fill_and_join cltname usr group tuxconfig ps raw base p w ≡ none
  unfolding fill_and_join
  fill_and_join-overflows cltname usr group tuxconfig ps raw base none w h = refl
  fill_and_join-overflows cltname usr group tuxconfig ps raw base (some q) w h =
      rw (fill_and_join, h) refl

  -- The TPINIT is allocated for 10 bytes of data. Where an application password is required and
  -- one of 10 or more characters without a NUL is passed, the constructor does not stay within
  -- the memory.
  pub new-overflows :
      (cltname usr sys_passwd group tuxconfig : Option Text) (s : Text) (raw : Tpinit) (w : W)
      → IsPlain s
      → 10 ≤ length s
      → (j.tpchkauth (construct w).1).0 ≡ tpappauth
      → new cltname usr sys_passwd (some s) group tuxconfig raw w ≡ none
  unfolding new construct ask_passwds array ask allotted
  new-overflows cltname usr sys_passwd group tuxconfig s raw w plain long required =
      let (base, w₁) = construct w in
      let (auth, w₂) = j.tpchkauth w₁ in
      let (spasswd, w₃) = ask_system sys_passwd w₂ in
      let (p, w₄) = a.tpalloc (bytes "TPINIT") none (j.tpinitneed 10) w₃ in
      rw (new, required)
        (fill_and_join-overflows cltname usr group tuxconfig (of_given s spasswd) (allotted 10 raw)
          base p w₄
          (put_apasswd-overflows s spasswd (allotted 10 raw) w₄ plain
            (omega (arith, long, length-take {0} 10 raw.data_bytes))))
