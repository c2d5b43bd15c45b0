-- ===== src/Tuxedo/Flags.antt =====
-- `tuxedo::set` and `tuxedo::unset`: flags as bit patterns of a `long`.
use Prim.Native.Nat.{bit_and, bit_or, bit_xor}
use cpp_atmi.Prelude.{ℕ, ◌-◌, ◌^◌}
use cpp_atmi.Atmi.Codes.{Constants}

-- LONG_MAX
abbrev pub long_max : ⦃k : Constants⦄ → ℕ
long_max ⦃k⦄ = 2 ^ k.long_bits - 1

unfoldable pub set : ℕ → ℕ → ℕ
set f sf = bit_or f sf

unfoldable pub unset : ⦃k : Constants⦄ → ℕ → ℕ → ℕ
unset f uf = bit_and f (bit_xor long_max uf)
