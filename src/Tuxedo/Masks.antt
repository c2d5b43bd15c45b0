-- ===== src/Tuxedo/Masks.antt =====
-- What `set` and `unset` do to each bit of a `long`, and to the flags kept in it.
use Prim.Native.Nat.{bit_and, bit_xor, min, max}
use cpp_atmi.Prelude.{ℕ, ◌-◌, ◌^◌, ◌≤◌, ◌<◌, ◌≡◌, ◌≢◌, Bool, true, false, arith, ◌==◌}
use cpp_atmi.Prelude.Bits.{
  digit, digit_bounds, digit-bit_or, digit-bit_and, digit-bit_xor, digit_mask, digit-eq-zero,
  digit-zero, eq_of_digits, bit_or_lt, bit_and_lt,
}
use cpp_atmi.Atmi.Codes.{Constants}
use cpp_atmi.Tuxedo.Flags.{set, unset, long_max}

-- No bit is set in both.
abbrev pub IsDisjoint : ℕ → ℕ → Type 0
IsDisjoint a b = (i : ℕ) → min (digit a i) (digit b i) ≡ 0

-- Every bit of `a` is set in `b`.
abbrev pub IsWithin : ℕ → ℕ → Type 0
IsWithin a b = (i : ℕ) → digit a i ≤ digit b i

pub digit-set : (f s i : ℕ) → digit (set f s) i ≡ max (digit f i) (digit s i)
unfolding set
digit-set f s i = digit-bit_or f s i

module _ ⦃k : Constants⦄ where
  -- A value that is not negative.
  abbrev pub IsFlags : ℕ → Type 0
  IsFlags f = f < 2 ^ k.long_bits

  pub digit-unset : (f u i : ℕ) → IsFlags f → digit (unset f u) i ≡ min (digit f i) (1 - digit u i)
  unfolding unset
  digit-unset f u i hf = ground (
    arith,
    digit-bit_and f (bit_xor (long_max ⦃k = k⦄) u) i,
    digit-bit_xor (long_max ⦃k = k⦄) u i,
    digit_mask k.long_bits i,
    digit_bounds f i,
    digit_bounds u i,
    digit-eq-zero k.long_bits f i hf,
  )

  pub set-IsFlags : (f s : ℕ) → IsFlags f → IsFlags s → IsFlags (set f s)
  unfolding set
  set-IsFlags f s = bit_or_lt k.long_bits f s

  pub unset-IsFlags : (f u : ℕ) → IsFlags f → IsFlags (unset f u)
  unfolding unset
  unset-IsFlags f u = bit_and_lt k.long_bits f _

  -- For flags that are not negative, unsetting what was just set restores the flags, if none of
  -- it was set before.
  pub unset-set : (f s : ℕ) → IsFlags f → IsFlags s → IsDisjoint f s → unset (set f s) s ≡ f
  unset-set f s hf hs apart =
      eq_of_digits k.long_bits _ f (unset-IsFlags _ s (set-IsFlags f s hf hs)) hf λ i. omega (
        arith,
        digit-unset (set f s) s i (set-IsFlags f s hf hs),
        digit-set f s i,
        apart i,
        digit_bounds f i,
        digit_bounds s i,
      )

  -- For flags that are not negative, setting what was just unset restores the flags, if all of
  -- it was set before.
  pub set-unset : (f s : ℕ) → IsFlags f → IsFlags s → IsWithin s f → set (unset f s) s ≡ f
  set-unset f s hf hs within =
      eq_of_digits k.long_bits _ f (set-IsFlags _ s (unset-IsFlags f s hf) hs) hf λ i. omega (
        arith,
        digit-set (unset f s) s i,
        digit-unset f s i hf,
        within i,
        digit_bounds f i,
        digit_bounds s i,
      )

-- `(f & m) == m`
abbrev pub has : ℕ → ℕ → Bool
has f m = bit_and f m == m

module _ ⦃k : Constants⦄ (f m : ℕ) (hf : IsFlags f) where
  -- Two masked values are equal if the flags agree under the mask.
  bit_and_agree :
      (g : ℕ)
      → IsFlags g
      → ((i : ℕ) → min (digit g i) (digit m i) ≡ min (digit f i) (digit m i))
      → bit_and g m ≡ bit_and f m
  bit_and_agree g hg agree =
      eq_of_digits k.long_bits _ _ (bit_and_lt k.long_bits g m hg) (bit_and_lt k.long_bits f m hf)
        λ i. omega (arith, digit-bit_and g m i, digit-bit_and f m i, agree i)

  pub has-set : IsFlags m → has (set f m) m ≡ true
  has-set hm =
      let all : bit_and (set f m) m ≡ m =
        eq_of_digits k.long_bits _ m (bit_and_lt k.long_bits _ m (set-IsFlags f m hf hm)) hm
          λ i. omega (arith, digit-bit_and (set f m) m i, digit-set f m i) in
      ground (arith, all)

  pub has-unset : IsFlags m → m ≢ 0 → has (unset f m) m ≡ false
  has-unset hm some_bit =
      let cleared : bit_and (unset f m) m ≡ 0 =
        eq_of_digits k.long_bits _ 0 (bit_and_lt k.long_bits _ m (unset-IsFlags f m hf))
          (omega (arith, hm))
          λ i. omega (
            arith,
            digit-bit_and (unset f m) m i,
            digit-unset f m i hf,
            digit_bounds m i,
            digit-zero i,
          ) in
      ground (arith, cleared)

  module _ (s : ℕ) (hs : IsFlags s) (apart : IsDisjoint s m) where
    pub has-set_other : has (set f s) m ≡ has f m
    has-set_other =
        let same : bit_and (set f s) m ≡ bit_and f m =
          bit_and_agree (set f s) (set-IsFlags f s hf hs)
            λ i. omega (arith, digit-set f s i, apart i, digit_bounds m i, digit_bounds s i) in
        rw same

    pub has-unset_other : has (unset f s) m ≡ has f m
    has-unset_other =
        let same : bit_and (unset f s) m ≡ bit_and f m =
          bit_and_agree (unset f s) (unset-IsFlags f s hf) λ i. omega (
            arith,
            digit-unset f s i hf,
            apart i,
            digit_bounds m i,
            digit_bounds s i,
            digit_bounds f i,
          ) in
        rw same
