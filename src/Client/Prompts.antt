-- ===== src/Client/Prompts.antt =====
-- The application password in the data of a TPINIT.
use cpp_atmi.Prelude.{
  ℕ, zero, suc, ◌<◌, ◌≤◌, ◌≡◌, refl, Option, none, some, [], ◌∷◌, ◌++◌, true, arith,
}
use cpp_atmi.Prelude.Lists.{length, take, drop, length-append}
use cpp_atmi.Atmi.Codes.{Constants, Auth, tpappauth, tpsysauth}
use cpp_atmi.Atmi.Texts.{Text, IsPlain, c_str, strncpy, bytes}
use cpp_atmi.Atmi.Calls.{Tpinit, Joining}
use cpp_atmi.Memory.{memcpy}
use cpp_atmi.Client.Authentication.{
  Passwd, Passwds, prompt, given, array, ask, ask_system, ask_passwds, put_apasswd, put_spasswd,
}

length-c_str : (s : Text) → length (c_str (s ++ 0 ∷ [])) ≤ length s
unfolding c_str
length-c_str [] = omega arith
length-c_str (c ∷ s) = ground (arith, length-c_str s)

c_str-plain : (s : Text) → IsPlain s → c_str (s ++ 0 ∷ []) ≡ s
unfolding c_str
c_str-plain [] p = refl
c_str-plain (c ∷ s) p = ground (arith, p, c_str-plain s p.1)

-- The password that is passed fits into the data, behind it the NUL.
abbrev pub Fits : Option Text → Tpinit → Type 0
Fits none info = ⊥
Fits (some s) info = length s < length info.data_bytes

abbrev pub application : Text
application = bytes "enter application password: "

abbrev pub system : Text
system = bytes "enter system (DOMAIN) password: "

take-copied :
    (n : ℕ) (from rest : Text) → n ≤ length from → take n (take n from ++ rest) ≡ take n from
take-copied zero from rest h = refl
take-copied (suc n) [] rest h = absurd (omega (arith, h))
take-copied (suc n) (c ∷ from) rest h = ground (arith, take-copied n from rest (omega (arith, h)))

-- A password that is passed, with its size.
abbrev pub of_given : Text → Passwd → Passwds
of_given s spasswd = record {
  apasswd = given s;
  apasswd_size = suc (length (c_str (s ++ 0 ∷ [])));
  spasswd = spasswd;
}

module _ {W : Type 0} ⦃j : Joining W⦄ where
  -- Nothing is written outside of the data.
  abbrev pub Puts : Auth → Option Text → Option Text → Tpinit → W → Type 0
  Puts auth sys_passwd app_passwd raw w =
      (ps : Passwds) × (w₃ : W) × (ask_passwds auth sys_passwd app_passwd w ≡ some (ps, w₃))
      × ((w₄ : W)
          → (info : Tpinit) × (put_apasswd ps raw w₄ ≡ some info) × (info.usrname ≡ raw.usrname))

  put_apasswd-given :
      (s : Text) (sys : Passwd) (raw : Tpinit) (w : W)
      → length s < length raw.data_bytes
      → (info : Tpinit) × (put_apasswd (of_given s sys) raw w ≡ some info)
        × (info.usrname ≡ raw.usrname)
  unfolding put_apasswd array memcpy
  put_apasswd-given s sys raw w h =
      let from = s ++ 0 ∷ [] in
      let n = suc (length (c_str from)) in
      (
        record raw { data_bytes = take n from ++ drop n raw.data_bytes; datalen = n },
        ground (arith, h, length-c_str s, length-append s (0 ∷ [])),
        refl,
      )

  pub ask_passwds-Puts :
      (auth : Auth) (sys_passwd app_passwd : Option Text) (raw : Tpinit) (w : W)
      → (auth ≡ tpappauth → Fits app_passwd raw)
      → Puts auth sys_passwd app_passwd raw w
  unfolding ask_passwds put_apasswd array ask ask_system
  ask_passwds-Puts tpappauth sys_passwd (some s) raw w h =
      (_, _, refl, λ w₄. put_apasswd-given s (ask_system sys_passwd w).0 raw w₄ (h refl))
  ask_passwds-Puts tpappauth sys_passwd none raw w h = absurd (h refl)
  ask_passwds-Puts tpsysauth sys_passwd app_passwd raw w h = (_, _, refl, λ w₄. (raw, refl, refl))
  ask_passwds-Puts (Auth.unlisted n) sys_passwd app_passwd raw w h =
      (_, _, refl, λ w₄. (raw, refl, refl))

  -- A password that does not fit is written behind the end of the data.
  pub put_apasswd-overflows :
      (s : Text) (spasswd : Passwd) (raw : Tpinit) (w : W)
      → IsPlain s
      → length raw.data_bytes ≤ length s
      → put_apasswd (of_given s spasswd) raw w ≡ none
  unfolding put_apasswd array memcpy
  put_apasswd-overflows s spasswd raw w p h = ground (arith, h, c_str-plain s p)

  -- When both passwords are prompted for, both are taken from the static buffer as it is after
  -- the second prompt, that for the system password: the data that the application password is
  -- copied to begin with the bytes of the buffer then, as many as the application password has
  -- and a NUL. This is for an application password that fits into the data.
  pub prompts-share :
      ⦃k : Constants⦄ (raw : Tpinit) (w w₄ : W)
      → let (found, w₁) = j.getpass application w in
        let (found₂, w₂) = j.getpass system w₁ in
        let n = suc (length (c_str (j.prompted w₁))) in
        found ≡ true
        → found₂ ≡ true
        → j.prompted w₄ ≡ j.prompted w₂
        → n ≤ length raw.data_bytes
        → n ≤ length (j.prompted w₂)
        → (ps : Passwds) × (info : Tpinit) × (ask_passwds tpappauth none none w ≡ some (ps, w₂))
          × (put_apasswd ps raw w₄ ≡ some info)
          × (take n info.data_bytes ≡ take n (j.prompted w₂))
          × ((put_spasswd ps.spasswd info w₄).passwd
              ≡ strncpy raw.passwd (c_str (j.prompted w₂)) k.maxtident)
  unfolding ask_passwds put_apasswd put_spasswd array ask ask_system memcpy
  prompts-share raw w w₄ found found₂ same room enough =
      let w₁ = (j.getpass application w).1 in
      let w₂ = (j.getpass system w₁).1 in
      let n = suc (length (c_str (j.prompted w₁))) in
      (
        record { apasswd = prompt; apasswd_size = n; spasswd = prompt },
        record raw { data_bytes = take n (j.prompted w₂) ++ drop n raw.data_bytes; datalen = n },
        ground (arith, found, found₂),
        rw (put_apasswd, same) (ground (arith, room, enough)),
        take-copied n (j.prompted w₂) (drop n raw.data_bytes) enough,
        rw same refl,
      )
