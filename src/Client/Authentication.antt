-- ===== src/Client/Authentication.antt =====
-- src/abstract_client.cpp: the passwords that a client joins with.
use cpp_atmi.Prelude.{ℕ, suc, ◌++◌, Option, none, some, [], ◌∷◌, if◌then◌else◌}
use cpp_atmi.Prelude.Lists.{length}
use cpp_atmi.Atmi.Codes.{Constants, Auth, tpsysauth, tpappauth}
use cpp_atmi.Atmi.Texts.{Text, bytes, strncpy, c_str}
use cpp_atmi.Atmi.Calls.{Tpinit, Joining}
use cpp_atmi.Memory.{memcpy}

-- A `const char *` for a password: NULL, an argument, or the static buffer of `getpass`.
pub data Passwd : Type 0 where
  null prompt : Passwd
  given : Text → Passwd

-- What the two pointers and the size are when the `switch` is left.
pub record Passwds : Type 0 where
  pub apasswd : Passwd
  pub apasswd_size : ℕ
  pub spasswd : Passwd

module _ {W : Type 0} ⦃j : Joining W⦄ where
  -- The array behind such a pointer, its NUL included.
  unfoldable pub array : Passwd → W → Option Text
  array null w = none
  array prompt w = some (j.prompted w)
  array (given s) w = some (s ++ 0 ∷ [])

  -- `( passwd != NULL ) ? passwd : getpass ( text )`
  unfoldable pub ask : Option Text → Text → W → Passwd × W
  ask (some s) text w = (given s, w)
  ask none text w = let (found, w') = j.getpass text w in (if found then prompt else null, w')

  unfoldable pub ask_system : Option Text → W → Passwd × W
  ask_system sys_passwd w = ask sys_passwd (bytes "enter system (DOMAIN) password: ") w

  -- The `switch`: the case of the application falls through to that of the system. `none` is a
  -- `strlen ( NULL )`.
  unfoldable pub ask_passwds : Auth → Option Text → Option Text → W → Option (Passwds × W)
  unfolding ask ask_system array
  ask_passwds tpappauth sys_passwd app_passwd w =
      let (apasswd, w₁) = ask app_passwd (bytes "enter application password: ") w in
      let (spasswd, w₂) = ask_system sys_passwd w₁ in
      elim (array apasswd w₁) [
        | none ↦ none
        | some v ↦ some (
          record { apasswd = apasswd; apasswd_size = suc (length (c_str v)); spasswd = spasswd },
          w₂,
        )
      ]
  ask_passwds tpsysauth sys_passwd app_passwd w =
      let (spasswd, w₁) = ask_system sys_passwd w in
      some (record { apasswd = null; apasswd_size = 0; spasswd = spasswd }, w₁)
  ask_passwds (Auth.unlisted n) sys_passwd app_passwd w =
      some (record { apasswd = null; apasswd_size = 0; spasswd = null }, w)

  -- `memcpy ( &_tpinfo->data, apasswd, apasswd_size )`: `none` is an access outside of the data.
  unfoldable pub put_apasswd : Passwds → Tpinit → W → Option Tpinit
  unfolding array
  put_apasswd ps info w = elim (array ps.apasswd w) [
    | none ↦ some info
    | some v ↦ (elim (memcpy (some info.data_bytes) (some v) ps.apasswd_size) [
      | some (some bytes) ↦ some (record info { data_bytes = bytes; datalen = ps.apasswd_size })
      | _ ↦ none
    ])
  ]

  unfoldable pub put_spasswd : ⦃k : Constants⦄ → Passwd → Tpinit → W → Tpinit
  unfolding array
  put_spasswd ⦃k⦄ spasswd info w = elim (array spasswd w) [
    | none ↦ info
    | some v ↦ record info { passwd = strncpy info.passwd (c_str v) k.maxtident }
  ]
