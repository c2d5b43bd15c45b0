-- ===== src/Tuxedo/Setters.antt =====
-- What the setters of the flags achieve.
use cpp_atmi.Prelude.{ℕ, ◌≡◌, refl, ◌⊎◌, inl, List, [], ◌∷◌, arith}
use cpp_atmi.Atmi.Codes.{Constants}
use cpp_atmi.Method.{Method, ok, pure, ◌>>◌}
use cpp_atmi.Tuxedo.{Tuxedo, set_flags, unset_flags, reset_flags}

-- A call of a setter.
pub data Setter : Type 0 where
  set unset reset : ℕ → Setter

module _ {W : Type 0} ⦃k : Constants⦄ where
  pub apply : Setter → Method Tuxedo W (Unit {0})
  apply (set f) = set_flags f
  apply (unset f) = unset_flags f
  apply (reset f) = reset_flags f

  pub apply_all : List Setter → Method Tuxedo W (Unit {0})
  apply_all [] = pure tt
  apply_all (s ∷ ss) = apply s >> apply_all ss

  -- Whatever setters are called, with whatever flags, they return and the flags are those of the
  -- start or TPNOFLAGS: no flag is ever set through them.
  pub apply_all-keeps :
      (ss : List Setter) (c : Tuxedo) (w : W)
      → let (r, c', w') = apply_all ss c w in
        (r ≡ ok tt) × ((c'.flags ≡ c.flags) ⊎ (c'.flags ≡ k.tpnoflags)) × (w' ≡ w)
  unfolding apply_all apply set_flags unset_flags reset_flags
  apply_all-keeps [] c w = (refl, inl refl, refl)
  apply_all-keeps (set f ∷ ss) c w = apply_all-keeps ss c w
  apply_all-keeps (unset f ∷ ss) c w = apply_all-keeps ss c w
  apply_all-keeps (reset f ∷ ss) c w =
      ground (arith, apply_all-keeps ss (record c { flags = k.tpnoflags }) w)
