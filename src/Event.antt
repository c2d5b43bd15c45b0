-- ===== src/Event.antt =====
-- include/atmi/event.hpp and src/event.cpp: the class `event`.
pub mod Posts
use cpp_atmi.Prelude.{ℕ, Bool, Option, none, some, List, [], ◌∷◌, if◌then◌else◌}
use cpp_atmi.Prelude.Int.{ℤ, minus_one, eqb}
use cpp_atmi.Atmi.Codes.{Constants}
use cpp_atmi.Atmi.Texts.{Text, Texts, Arg, str, bytes}
use cpp_atmi.Atmi.Calls.{Atmi, Services, Ptr}
use cpp_atmi.Method.{Method, pure, this, reads, calls, ◌>>=◌, on}
use cpp_atmi.Tuxedo.{Tuxedo, construct, set_flags, handle_tperrno}

pub record Event : Type 0 where
  pub tuxedo : Tuxedo
  pub open tuxedo use *
  pub eventname : Text

abbrev pub super : {W A : Type 0} → Method Tuxedo W A → Method Event W A
super m = on (λ e. e.tuxedo) (λ t e. record e { tuxedo = t }) m

module _ {W : Type 0} ⦃a : Atmi W⦄ where
  unfoldable pub new : ⦃k : Constants⦄ → Text → W → Event × W
  unfolding construct set_flags
  new ⦃k⦄ eventname w =
      let (base, w') = construct w in
      let (r, c, w'') = set_flags k.tpnotran base w' in
      (record { tuxedo = c; eventname = eventname }, w'')

  -- What `handle_tperrno` returns is dropped.
  unfoldable pub post : ⦃t : Texts⦄ → ⦃s : Services W⦄ → Ptr → ℕ → Method Event W ℤ
  post ⦃t⦄ ⦃s⦄ buf len = do
    e ← this (λ e. e)
    rc ← calls (s.tppost (some e.eventname) buf len e.flags)
    u ← reads a.tpurcode
    n ← reads a.tperrno
    if eqb rc minus_one
        then (super (handle_tperrno n (bytes "Post event %s failed.") (str e.eventname ∷ []))
            >>= λ v. pure minus_one)
        else pure u
