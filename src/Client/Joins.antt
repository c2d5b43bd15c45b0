-- ===== src/Client/Joins.antt =====
-- What a client has joined when its constructor returns, and why it throws.
use cpp_atmi.Prelude.{
  ◌≡◌, ◌≢◌, refl, ◌⊎◌, inl, inr, true, false, Option, none, some, [], ◌∷◌, ◌++◌, arith, Bool-cases,
}
use cpp_atmi.Prelude.Int.{pos, minus_one, eqb, is_neg, eqb_iff}
use cpp_atmi.Atmi.Codes.{Constants}
use cpp_atmi.Atmi.Texts.{Text, Texts, str, num, bytes, c_str, strncpy}
use cpp_atmi.Atmi.Calls.{Atmi, Tpinit, Joining}
use cpp_atmi.Exceptions.{Exception, tperr, atmi, tuxedo, atmi_exception, tuxedo_exception}
use cpp_atmi.Method.{Post, >>=-Post, Post-mono}
use cpp_atmi.Tuxedo.{set_context}
use cpp_atmi.Client.{
  AbstractClient, configure, denied, take_context, join, configure_and_join, log_name, put_names,
}

-- The configuration that a client was given is in force.
abbrev pub IsConfigured : ⦃k : Constants⦄ → Option Text → Text → Tpinit → Type 0
IsConfigured none path info = path ≡ []
IsConfigured ⦃k⦄ (some tuxconfig) path info = (path ≡ tuxconfig) × (info.flags ≡ k.tpmulticontexts)

module _ {W : Type 0} ⦃j : Joining W⦄ ⦃a : Atmi W⦄ ⦃t : Texts⦄ ⦃k : Constants⦄ where
  -- The configuration was put into the environment in the world `w`, if one was given.
  abbrev pub IsPut : Option Text → W → W → Type 0
  IsPut none w w₀ = w₀ ≡ w
  IsPut (some path) w w₀ =
      let (rc, w₁) = j.tuxputenv (bytes "TUXCONFIG=" ++ path) w in (rc ≡ pos 0) × (w₀ ≡ w₁)

  -- It could not be put.
  abbrev pub IsRefused : Option Text → W → Type 0
  IsRefused none w' = ⊥
  IsRefused (some path) w' =
      (w : W) × ((j.tuxputenv (bytes "TUXCONFIG=" ++ path) w).0 ≢ pos 0)
      × (w' ≡ (j.tuxputenv (bytes "TUXCONFIG=" ++ path) w).1)

  -- The client is in the application since the call of tpinit in the world `w₀`.
  pub record HasJoined (w₀ : W) (c : AbstractClient) (w : W) : Type 0 where
    pub joined : is_neg (j.tpinit c.tpinfo w₀).0 ≡ false
    pub since : let (rc, w₁) = j.tpinit c.tpinfo w₀ in w ≡ (a.tpgetctxt w₁).2
    pub found :
        let (rc, w₁) = j.tpinit c.tpinfo w₀ in
        let (rc', ctxt, w₂) = a.tpgetctxt w₁ in
        rc' ≢ minus_one
        → (c.tuxedo.context ≡ ctxt) × (ctxt ≢ k.tpnullcontext) × (ctxt ≢ k.tpinvalidcontext)
    pub not_found :
        let (rc, w₁) = j.tpinit c.tpinfo w₀ in
        (a.tpgetctxt w₁).0 ≡ minus_one → c.tuxedo.context ≡ pos 0
    pub named :
        c.name
        ≡ t.format
            (bytes "%s-context-%d")
            (str (c_str c.tpinfo.cltname) ∷ num c.tuxedo.context ∷ [])

  -- tpinit failed, with its tperrno, or the thread has no context.
  abbrev pub HasFailed : W → Exception → AbstractClient → W → Type 0
  HasFailed w₀ e c w =
      let (rc, w₁) = j.tpinit c.tpinfo w₀ in
      let (rc', ctxt, w₂) = a.tpgetctxt w₁ in
      (e.class ≡ tuxedo)
      × (((is_neg rc ≡ true) × (w ≡ w₁) × (e.error ≡ tperr (a.tperrno w₁)))
          ⊎ ((is_neg rc ≡ false)
              × (w ≡ w₂)
              × ((ctxt ≡ k.tpnullcontext) ⊎ (ctxt ≡ k.tpinvalidcontext))))

  join-Post :
      (c : AbstractClient) (w : W)
      → c.tuxedo.context ≡ pos 0
      → k.tpsinglecontext ≢ k.tpnullcontext
      → k.tpsinglecontext ≢ k.tpinvalidcontext
      → Post
          (λ v c' w'. HasJoined w c' w' × (c'.tpinfo ≡ c.tpinfo) × (c'.tuxconfig ≡ c.tuxconfig))
          (λ e c' w'. HasFailed w e c' w')
          (join c w)
  unfolding join denied take_context set_context tuxedo_exception
  join-Post c w fresh null_other invalid_other =
      let (rc, w₁) = j.tpinit c.tpinfo w in
      let (rc', ctxt, w₂) = a.tpgetctxt w₁ in
      ground (
        arith,
        fresh,
        null_other,
        invalid_other,
        eqb_iff rc' minus_one,
        eqb_iff ctxt k.tpsinglecontext,
        eqb_iff ctxt k.tpnullcontext,
        eqb_iff ctxt k.tpinvalidcontext,
      )

  -- The user's name stands in the TPINIT, that of the process where none was given.
  abbrev pub IsUser : Option Text → Text → W → Tpinit → Type 0
  IsUser none old w info = info.usrname ≡ strncpy old (log_name w) k.maxtident
  IsUser (some usr) old w info = info.usrname ≡ strncpy old usr k.maxtident

  configure-Post :
      (tuxconfig : Option Text) (c : AbstractClient) (w : W)
      → c.tuxconfig ≡ []
      → Post
          (λ v c' w'.
            IsConfigured tuxconfig c'.tuxconfig c'.tpinfo
            × (c'.tuxedo ≡ c.tuxedo)
            × (c'.tpinfo.usrname ≡ c.tpinfo.usrname)
            × IsPut tuxconfig w w')
          (λ e c' w'. (e.class ≡ atmi) × IsRefused tuxconfig w')
          (configure tuxconfig c w)
  unfolding configure atmi_exception
  configure-Post none c w h = (h, refl, refl, refl)
  configure-Post (some path) c w h =
      let (rc, w₁) = j.tuxputenv (bytes "TUXCONFIG=" ++ path) w in
      elim (Bool-cases (eqb rc (pos 0))) [
        | inl good ↦ rw good ((refl, refl), refl, refl, ((eqb_iff rc (pos 0)).0 good, refl))
        | inr bad ↦ rw bad (refl, (w, (λ e. ground (arith, eqb_iff rc (pos 0), e, bad)), refl))
      ]

  put_names-IsConfigured :
      (cltname usr group tuxconfig : Option Text) (path : Text) (info : Tpinit) (w : W)
      → IsConfigured tuxconfig path info
      → let info' = put_names cltname usr group w info in
        IsConfigured tuxconfig path info' × IsUser usr info.usrname w info'
  unfolding put_names
  put_names-IsConfigured cltname none group none path info w h = (h, refl)
  put_names-IsConfigured cltname none group (some s) path info w h = (h, refl)
  put_names-IsConfigured cltname (some u) group none path info w h = (h, refl)
  put_names-IsConfigured cltname (some u) group (some s) path info w h = (h, refl)

  -- The second half of the constructor returned, or it threw.
  abbrev pub Ends : Option Text → Option Text → Text → AbstractClient → W → Type 0
  Ends usr tuxconfig old c w =
      (w₁ : W) × (w₀ : W) × IsPut tuxconfig w₁ w₀
      × HasJoined w₀ c w
      × IsConfigured tuxconfig c.tuxconfig c.tpinfo
      × IsUser usr old w₀ c.tpinfo

  abbrev pub Fails : Option Text → Exception → AbstractClient → W → Type 0
  Fails tuxconfig e c w =
      ((e.class ≡ atmi) × IsRefused tuxconfig w) ⊎ ((w₀ : W) × HasFailed w₀ e c w)

  pub configure_and_join-Post :
      (cltname usr group tuxconfig : Option Text) (c : AbstractClient) (w : W)
      → c.tuxedo.context ≡ pos 0
      → c.tuxconfig ≡ []
      → k.tpsinglecontext ≢ k.tpnullcontext
      → k.tpsinglecontext ≢ k.tpinvalidcontext
      → Post
          (λ v. Ends usr tuxconfig c.tpinfo.usrname)
          (Fails tuxconfig)
          (configure_and_join cltname usr group tuxconfig c w)
  unfolding configure_and_join
  configure_and_join-Post cltname usr group tuxconfig c w fresh unset n i =
      >>=-Post
        (λ v c' w'.
          IsConfigured tuxconfig c'.tuxconfig c'.tpinfo
          × (c'.tuxedo ≡ c.tuxedo)
          × (c'.tpinfo.usrname ≡ c.tpinfo.usrname)
          × IsPut tuxconfig w w')
        (λ v. Ends usr tuxconfig c.tpinfo.usrname) (Fails tuxconfig) (configure tuxconfig) _ c w
        (Post-mono (configure tuxconfig c w) (λ v c' w' h. h) (λ e c' w' h. inl h)
          (configure-Post tuxconfig c w unset))
        (λ v c₁ w₁ h.
          let c₂ = record c₁ { tpinfo = put_names cltname usr group w₁ c₁.tpinfo } in
          let ready =
            put_names-IsConfigured cltname usr group tuxconfig c₁.tuxconfig c₁.tpinfo w₁ h.0 in
          Post-mono {Q = λ v. Ends usr tuxconfig c.tpinfo.usrname} {S = Fails tuxconfig}
            (join c₂ w₁)
            (λ v' c' w' h'. (w, w₁, h.3, h'.0, rw (h'.1, h'.2) ready.0, rw (h'.1, ← h.2) ready.1))
            (λ e c' w' h'. inr (w₁, h')) (join-Post c₂ w₁ (rw h.1 fresh) n i))
