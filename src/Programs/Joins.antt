-- ===== src/Programs/Joins.antt =====
-- Reading the command line and joining the application leaves the queue alone.
use mathlib.Core.Option
use cpp_atmi.Prelude.{
  ℕ, zero, suc, ◌≡◌, ◌++◌, refl, Option, none, some, [], arith, ◌∙◌, inl, inr, Option-cases,
}
use cpp_atmi.Prelude.Int.{ℤ}
use cpp_atmi.Atmi.Codes.{Constants, Errno, Auth, tpsysauth, tpappauth, tpeperm}
use cpp_atmi.Atmi.Texts.{Text, Texts, bytes}
use cpp_atmi.Atmi.Calls.{Atmi, Ptr, Tpinit, Joining}
use cpp_atmi.Method.{Outcome, ok, err}
use cpp_atmi.Tuxedo.{Tuxedo, construct, destroy, switch_context, set_context}
use cpp_atmi.QueueStream.Server.{View}
use cpp_atmi.Client.{
  allotted, AbstractClient, new, fill_and_join, configure_and_join, configure, join, take_context,
  denied, unwind, leave, put_names,
}
use cpp_atmi.Client.Authentication.{Passwds, ask, ask_system, ask_passwds, put_apasswd, put_spasswd}
use cpp_atmi.Client.Factories.{new_user}
use cpp_atmi.Options.{
  Process, Opt, opt_v, opt_q, opt_d, opt_o, no_operand, unrecognized, Options, QueueOptions,
  ExportOptions, set, set_queue, set_export, version, parse,
}
use cpp_atmi.Programs.{Shell, IsQuiet, Exit, close, closing}

module _ {W : Type 0} ⦃a : Atmi W⦄ ⦃j : Joining W⦄ ⦃p : Process W⦄ ⦃h : Shell W⦄ where
  -- These calls leave the queue alone.
  pub record IsApart (view : W → View) : Type 0 where
    pub caught : (w : W) → view (h.on_interrupt w) ≡ view w
    pub parsed : (arguments : Text) (w : W) → view (p.getopt arguments w).1 ≡ view w
    pub cut : (s : Option Text) (d : Text) (w : W) → view (p.strtok s d w).1 ≡ view w
    pub told : (msg : Text) (w : W) → view (p.cout msg w) ≡ view w
    pub created : (path : Text) (w : W) → view (h.open_out path w).1 ≡ view w
    pub checked : (w : W) → view (j.tpchkauth w).1 ≡ view w
    pub asked : (prompt : Text) (w : W) → view (j.getpass prompt w).1 ≡ view w
    pub put : (setting : Text) (w : W) → view (j.tuxputenv setting w).1 ≡ view w
    pub joined : (info : Tpinit) (w : W) → view (j.tpinit info w).1 ≡ view w
    pub parted : (w : W) → view (j.tpterm w) ≡ view w
    pub allotted :
        (type : Text) (sub : Option Text) (n : ℕ) (w : W) → view (a.tpalloc type sub n w).1 ≡ view w
    pub got : (w : W) → view (a.tpgetctxt w).2 ≡ view w
    pub entered : (ctxt : ℤ) (w : W) → view (a.tpsetctxt ctxt w).1 ≡ view w

module _ {W : Type 0} ⦃a : Atmi W⦄ ⦃j : Joining W⦄ ⦃p : Process W⦄ ⦃h : Shell W⦄ ⦃t : Texts⦄
    ⦃k : Constants⦄ {view : W → View} (quiet : IsQuiet view) (apart : IsApart view) where
  set-view : (o : Opt) (c : Options) (w : W) → view (set o c w).1 ≡ view w
  unfolding set version
  set-view opt_v c w = apart.told _ w
  set-view no_operand c w = quiet.said _ w
  set-view unrecognized c w = quiet.said _ w
  set-view _ c w = refl

  pub set_queue-view : (o : Opt) (c : QueueOptions) (w : W) → view (set_queue o c w).1 ≡ view w
  unfolding set_queue
  set_queue-view opt_q c w =
      let w₁ = (p.strtok (p.optarg w) (bytes ":") w).1 in
      apart.cut none (bytes ":") w₁ ∙ apart.cut (p.optarg w) (bytes ":") w
  set_queue-view o c w = set-view o c.options w

  pub set_export-view : (o : Opt) (c : ExportOptions) (w : W) → view (set_export o c w).1 ≡ view w
  unfolding set_export
  set_export-view opt_d c w = refl
  set_export-view opt_o c w = refl
  set_export-view o c w = set_queue-view o c.queue_options w

  -- What ran has left the queue alone.
  abbrev pub Spares : {A : Type 0} → W → Option (A × W) → Type 0
  Spares w none = Unit {0}
  Spares w (some (x, w')) = view w' ≡ view w

  Spares-from :
      {A : Type 0} (w w₁ : W) (o : Option (A × W)) → view w₁ ≡ view w → Spares w₁ o → Spares w o
  Spares-from w w₁ none e s = s
  Spares-from w w₁ (some (x, w')) e s = s ∙ e

  pub parse-Spares :
      {C : Type 0} (set : Opt → C → W → C × W) (turns : ℕ) (arguments : Text) (c : C) (w : W)
      → ((o : Opt) (c' : C) (w' : W) → view (set o c' w').1 ≡ view w')
      → Spares w (parse set turns arguments c w)
  unfolding parse
  parse-Spares set zero arguments c w each = tt
  parse-Spares set (suc turns) arguments c w each =
      let (opt, w₁) = p.getopt arguments w in
      elim (Option-cases opt) [
        | inl e ↦ rw (e, parse) (apart.parsed arguments w)
        | inr (o, e) ↦
            let (c', w₂) = set o c w₁ in
            rw (e, parse)
              (Spares-from w w₂ (parse set turns arguments c' w₂)
                (each o c w₁ ∙ apart.parsed arguments w)
                (parse-Spares set turns arguments c' w₂ each))
      ]

  ask-view : (passwd : Option Text) (prompt : Text) (w : W) → view (ask passwd prompt w).1 ≡ view w
  unfolding ask
  ask-view none prompt w = apart.asked prompt w
  ask-view (some s) prompt w = refl

  ask_passwds-Spares :
      (auth : Auth) (sys_passwd app_passwd : Option Text) (w : W)
      → Spares w (ask_passwds auth sys_passwd app_passwd w)
  unfolding ask_passwds ask_system
  ask_passwds-Spares tpappauth sys_passwd app_passwd w =
      let (apasswd, w₁) = ask app_passwd (bytes "enter application password: ") w in
      ground (
        arith,
        ask-view app_passwd (bytes "enter application password: ") w,
        ask-view sys_passwd (bytes "enter system (DOMAIN) password: ") w₁,
      )
  ask_passwds-Spares tpsysauth sys_passwd app_passwd w =
      ask-view sys_passwd (bytes "enter system (DOMAIN) password: ") w
  ask_passwds-Spares (Auth.unlisted n) sys_passwd app_passwd w = refl

  take_context-view : (ctxt : ℤ) (c : AbstractClient) (w : W) → (take_context ctxt c w).2 ≡ w
  unfolding take_context set_context
  take_context-view ctxt c w = ground arith

  denied-view : (e : Errno) (c : AbstractClient) (w : W) → (denied e c w).2 ≡ w
  unfolding denied
  denied-view tpeperm c w = refl
  denied-view _ c w = refl

  join-view : (c : AbstractClient) (w : W) → view (join c w).2 ≡ view w
  unfolding join
  join-view c w =
      let (rc, w₁) = j.tpinit c.tpinfo w in
      let (got, ctxt, w₂) = a.tpgetctxt w₁ in
      ground (
        arith,
        apart.joined c.tpinfo w,
        apart.got w₁,
        denied-view (a.tperrno w₁) c w₁,
        take_context-view ctxt c w₂,
      )

  configure-view :
      (tuxconfig : Option Text) (c : AbstractClient) (w : W)
      → view (configure tuxconfig c w).2 ≡ view w
  unfolding configure
  configure-view none c w = refl
  configure-view (some s) c w = ground (arith, apart.put (bytes "TUXCONFIG=" ++ s) w)

  configure_and_join-view :
      (cltname usr group tuxconfig : Option Text) (c : AbstractClient) (w : W)
      → view (configure_and_join cltname usr group tuxconfig c w).2 ≡ view w
  unfolding configure_and_join
  configure_and_join-view cltname usr group tuxconfig c w =
      let (r, c₁, w₁) = configure tuxconfig c w in
      ground (
        arith,
        configure-view tuxconfig c w,
        join-view (record c₁ { tpinfo = put_names cltname usr group w₁ c₁.tpinfo }) w₁,
      )

  unwind-Spares : (o : Outcome (Unit {0}) × AbstractClient × W) → Spares o.2 (some (unwind o))
  unfolding unwind destroy
  unwind-Spares (ok v, c, w) = refl
  unwind-Spares (err e, c, w) = quiet.closed c.tuxedo.catd w

  fill_and_join-Spares :
      (cltname usr group tuxconfig : Option Text) (ps : Passwds) (raw : Tpinit) (base : Tuxedo)
      (buf : Ptr) (w : W)
      → Spares w (fill_and_join cltname usr group tuxconfig ps raw base buf w)
  unfolding fill_and_join
  fill_and_join-Spares cltname usr group tuxconfig ps raw base none w = tt
  fill_and_join-Spares cltname usr group tuxconfig ps raw base (some b) w =
      elim (Option-cases (put_apasswd ps raw w)) [
        | inl e ↦ rw (e, fill_and_join) tt
        | inr (info, e) ↦
            let c : AbstractClient = record {
              tuxedo = base;
              name = [];
              tuxconfig = [];
              tpinfo = put_spasswd ps.spasswd info w;
            } in
            let o = configure_and_join cltname usr group tuxconfig c w in
            rw (e, fill_and_join)
              (unwind-Spares o ∙ configure_and_join-view cltname usr group tuxconfig c w)
      ]

  pub new_user-Spares :
      (cltname usr sys_passwd app_passwd group : Option Text) (raw : Tpinit) (w : W)
      → Spares w (new_user cltname usr sys_passwd app_passwd group raw w)
  unfolding new_user new construct
  new_user-Spares cltname usr sys_passwd app_passwd group raw w =
      let (base, w₁) = construct w in
      let (auth, w₂) = j.tpchkauth w₁ in
      elim (Option-cases (ask_passwds auth sys_passwd app_passwd w₂)) [
        | inl e ↦ rw (e, new) tt
        | inr ((ps, w₃), e) ↦
            let (buf, w₄) = a.tpalloc (bytes "TPINIT") none (j.tpinitneed 10) w₃ in
            let asked : view w₃ ≡ view w₂ =
              rw e at (ask_passwds-Spares auth sys_passwd app_passwd w₂) in
            rw (e, new)
              (Spares-from w w₄
                (fill_and_join cltname usr group none ps (allotted 10 raw) base buf w₄)
                (apart.allotted _ _ _ w₃ ∙ asked ∙ apart.checked w₁ ∙ quiet.opened w)
                (fill_and_join-Spares cltname usr group none ps (allotted 10 raw) base buf w₄))
      ]

  -- What the destructor of a client leaves of the queue.
  leave-view : (c : AbstractClient) (w : W) → view (leave c w).2 ≡ view w
  unfolding leave switch_context
  leave-view c w =
      let (rc, ctxt, w₁) = a.tpgetctxt w in
      let (rc', w₂) = a.tpsetctxt c.tuxedo.context w₁ in
      ground (
        arith,
        apart.got w,
        apart.entered c.tuxedo.context w₁,
        apart.entered c.tuxedo.context w,
        apart.parted w,
        apart.parted w₁,
        apart.parted w₂,
        apart.parted (a.tpsetctxt c.tuxedo.context w).1,
      )

  abbrev pub Closes : Exit W → Exit W → Type 0
  Closes o none = Unit {0}
  Closes none (some r) = ⊥
  Closes (some (status, out, w)) (some (status', out', w')) =
      (status' ≡ status) × (out' ≡ out) × (view w' ≡ view w)

  pub closing-Closes : (c : AbstractClient) (o : Exit W) → Closes o (closing c o)
  unfolding closing close destroy
  closing-Closes c none = tt
  closing-Closes c (some (status, out, w)) = go (leave c w) (leave-view c w)
    where
      go :
          (l : Outcome (Unit {0}) × AbstractClient × W)
          → view l.2 ≡ view w
          → Closes (some (status, out, w)) (
              Option.map
                (λ w'. (status, out, w'))
                (let (r, c', w') = l in
                  elim r [ ok v ↦ some (destroy c'.tuxedo w') | err e ↦ none ]))
      go (ok v, c', w') e = (refl, refl, quiet.closed c'.tuxedo.catd w' ∙ e)
      go (err e', c', w') e = tt
