-- ===== src/Atmi/Texts.antt =====
-- Texts are lists of bytes without the closing NUL. Formatting, the message catalogue and the
-- descriptions of error numbers are library calls.
use Prim.Native.Char.{code}
use native.Mathlib.Numerals.{add-one}
use cpp_atmi.Prelude.{
  ℕ, zero, suc, ◌+◌, ap, String, List, [], ◌∷◌, ◌++◌, ◌≡◌, refl, ◌≢◌, ◌<◌, arith, ◌==◌,
  if◌then◌else◌,
}
use cpp_atmi.Prelude.Lists.{length, drop, replicate}
use cpp_atmi.Prelude.Int.{ℤ}
use cpp_atmi.Atmi.Codes.{Errno, Diagno, FmlError}

abbrev pub Text : Type 0
Text = List ℕ

-- The bytes of a literal.
unfoldable pub bytes : String → Text
bytes String.[] = []
bytes (String.◌∷◌ c s) = code c ∷ bytes s

-- An argument of a printf conversion.
pub data Arg : Type 0 where
  str : Text → Arg
  num : ℤ → Arg
  code_of : Errno → Arg
  diagno_of : Diagno → Arg

pub record Texts : Type 0 where
  -- The text that snprintf(buff, n, format, args) would write if n were large enough.
  pub format : Text → List Arg → Text
  -- catgets(catd, set, number, default)
  pub catgets : ℕ → ℕ → ℕ → Text → Text
  pub strerror : ℤ → Text
  pub tpstrerror : Errno → Text
  pub tpstrerrordetail : ℤ → Text
  pub fstrerror32 : FmlError → Text

-- Character arrays, closing NUL and padding included: what strncpy(to, from, n) and
-- memset(to, 0, n) leave in `to`, and the text that an array holds.
pub pad : ℕ → Text → Text
pad zero from = []
pad (suc n) [] = 0 ∷ pad n []
pad (suc n) (c ∷ from) = c ∷ pad n from

unfoldable pub strncpy : Text → Text → ℕ → Text
unfolding pad
strncpy to from n = pad n from ++ drop n to

unfoldable pub clear : Text → ℕ → Text
clear to n = replicate n 0 ++ drop n to

unfoldable pub c_str : Text → Text
c_str [] = []
c_str (c ∷ cs) = if c == 0 then [] else c ∷ c_str cs

-- A text without a NUL.
abbrev pub IsPlain : Text → Type 0
IsPlain [] = Unit {0}
IsPlain (c ∷ cs) = (c ≢ 0) × IsPlain cs

c_str-pad : (s rest : Text) (n : ℕ) → IsPlain s → length s < n → c_str (pad n s ++ rest) ≡ s
unfolding c_str pad
c_str-pad s rest zero p h = elim h [ ]
c_str-pad [] rest (suc n) p h = refl
c_str-pad (c ∷ s) rest (suc n) p h = ground (arith, c_str-pad s rest n p.1)

-- A name that is shorter than `n` is read back as it was written.
pub c_str-strncpy : (to s : Text) (n : ℕ) → IsPlain s → length s < n → c_str (strncpy to s n) ≡ s
unfolding strncpy
c_str-strncpy to s n p h = c_str-pad s (drop n to) n p h

pad-length : (s : Text) → pad (length s) s ≡ s
unfolding pad
pad-length [] = refl
pad-length (c ∷ s) = ap (λ r. c ∷ r) (pad-length s)

drop-replicate : (n : ℕ) → drop {A = ℕ} n (replicate (suc n) 0) ≡ 0 ∷ []
drop-replicate zero = refl
drop-replicate (suc n) = drop-replicate n

-- An array of zeros that is one longer than the text holds it and its NUL.
pub strncpy-replicate : (s : Text) → strncpy (replicate (length s + 1) 0) s (length s) ≡ s ++ 0 ∷ []
unfolding strncpy
strncpy-replicate s = rw (add-one, pad-length s, drop-replicate (length s)) refl
