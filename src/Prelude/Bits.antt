-- ===== src/Prelude/Bits.antt =====
-- The binary digits of a machine word, and what `|`, `&` and `^` do to each of them.
use Prim.Native.Nat.{
  ℕ, zero, suc, ◌+◌, ◌-◌, ◌*◌, ◌/◌, ◌%◌, ◌^◌, ◌≤◌, ◌<◌, min, max, digits, bitwise, differ, bit_and,
  bit_or, bit_xor, bit_and-bitwise, bit_or-bitwise, bit_xor-bitwise,
}
use native.Mathlib.Nat.{pow-suc, one-le-pow}
use mathlib.Core.Path.{◌≡◌, refl, ap}
use native.Mathlib.Omega.{arith}
use cpp_atmi.Prelude.Tests.{ltb, if◌then◌else◌}

-- An operation on the digits of two numbers, where `rest` says what it makes of the second number
-- when the first has run out.
module _ (rest : ℕ → ℕ) (op : ℕ → ℕ → ℕ) where
  -- Any two amounts of fuel that reach the end agree.
  refuel : (x y j k : ℕ) → x ≤ j → x ≤ k → digits rest op k x y ≡ digits rest op j x y
  refuel zero y zero zero left right = refl
  refuel zero y zero (suc k) left right = refl
  refuel zero y (suc j) zero left right = refl
  refuel zero y (suc j) (suc k) left right = refl
  refuel (suc x) y zero k left right = absurd (omega (arith, left))
  refuel (suc x) y (suc j) zero left right = absurd (omega (arith, right))
  refuel (suc x) y (suc j) (suc k) left right =
      ap (λ high. high * 2 + op (suc x % 2) (y % 2))
        (refuel (suc x / 2) (y / 2) j k (omega (arith, left)) (omega (arith, right)))

  -- The lowest digit, and the others.
  split_low :
      (x y : ℕ)
      → op (suc x % 2) (y % 2) + 2 * bitwise rest op (suc x / 2) (y / 2) ≡ bitwise rest op (suc x) y
  split_low x y =
      let half = suc x / 2 in omega (arith, refuel half (y / 2) half x (omega arith) (omega arith))

or_digits : (x y : ℕ) → max (x % 2) (y % 2) + 2 * bit_or (x / 2) (y / 2) ≡ bit_or x y
or_digits zero y = simp bit_or-bitwise (omega arith)
or_digits (suc x) y = simp bit_or-bitwise (split_low (λ d. d) max x y)

and_digits : (x y : ℕ) → min (x % 2) (y % 2) + 2 * bit_and (x / 2) (y / 2) ≡ bit_and x y
and_digits zero y = simp bit_and-bitwise (omega arith)
and_digits (suc x) y = simp bit_and-bitwise (split_low (λ d. 0) min x y)

xor_digits : (x y : ℕ) → differ (x % 2) (y % 2) + 2 * bit_xor (x / 2) (y / 2) ≡ bit_xor x y
xor_digits zero y = simp bit_xor-bitwise (omega arith)
xor_digits (suc x) y = simp bit_xor-bitwise (split_low (λ d. d) differ x y)

differ_lem : (a b : ℕ) → a < 2 → b < 2 → differ a b ≡ (a + b) % 2
differ_lem zero b ha hb = omega arith
differ_lem (suc zero) zero ha hb = refl
differ_lem (suc zero) (suc zero) ha hb = refl
differ_lem (suc zero) (suc (suc b)) ha hb = absurd (omega arith)
differ_lem (suc (suc a)) b ha hb = absurd (omega arith)

bit_xor_parts :
    (a b : ℕ)
    → (bit_xor a b % 2 ≡ (a % 2 + b % 2) % 2) × (bit_xor a b / 2 ≡ bit_xor (a / 2) (b / 2))
bit_xor_parts a b =
    omega (arith, xor_digits a b, differ_lem (a % 2) (b % 2) (omega arith) (omega arith))

-- The digit of `x` at place `i`: 1 where the bit is set, 0 where it is not.
unfoldable pub digit : ℕ → ℕ → ℕ
digit x zero = x % 2
digit x (suc i) = digit (x / 2) i

pub digit_bounds : (x i : ℕ) → digit x i < 2
unfolding digit
digit_bounds x zero = omega arith
digit_bounds x (suc i) = digit_bounds (x / 2) i

pub digit-bit_or : (a b i : ℕ) → digit (bit_or a b) i ≡ max (digit a i) (digit b i)
unfolding digit
digit-bit_or a b zero = omega (arith, or_digits a b)
digit-bit_or a b (suc i) =
    let e : bit_or a b / 2 ≡ bit_or (a / 2) (b / 2) = omega (arith, or_digits a b) in
    rw e (digit-bit_or (a / 2) (b / 2) i)

pub digit-bit_and : (a b i : ℕ) → digit (bit_and a b) i ≡ min (digit a i) (digit b i)
unfolding digit
digit-bit_and a b zero = omega (arith, and_digits a b)
digit-bit_and a b (suc i) =
    let e : bit_and a b / 2 ≡ bit_and (a / 2) (b / 2) = omega (arith, and_digits a b) in
    rw e (digit-bit_and (a / 2) (b / 2) i)

pub digit-bit_xor : (a b i : ℕ) → digit (bit_xor a b) i ≡ (digit a i + digit b i) % 2
unfolding digit
digit-bit_xor a b zero = (bit_xor_parts a b).0
digit-bit_xor a b (suc i) = rw ((bit_xor_parts a b).1) (digit-bit_xor (a / 2) (b / 2) i)

pub digit-zero : (i : ℕ) → digit 0 i ≡ 0
unfolding digit
digit-zero zero = omega arith
digit-zero (suc i) = digit-zero i

-- A mask of `k` ones.
pub digit_mask : (k i : ℕ) → digit (2 ^ k - 1) i ≡ (if ltb i k then 1 else 0)
unfolding digit
digit_mask zero i = rw digit-zero (ground arith)
digit_mask (suc k) zero = ground (arith, pow-suc 2 k, one-le-pow k 2)
digit_mask (suc k) (suc i) =
    let e : (2 ^ suc k - 1) / 2 ≡ 2 ^ k - 1 = omega (arith, pow-suc 2 k, one-le-pow k 2) in
    rw e (ground (arith, digit_mask k i))

-- Words of one width with the same digits are equal.
pub eq_of_digits : (k a b : ℕ) → a < 2 ^ k → b < 2 ^ k → ((i : ℕ) → digit a i ≡ digit b i) → a ≡ b
unfolding digit
eq_of_digits zero a b ha hb e = omega arith
eq_of_digits (suc k) a b ha hb e =
    let half : a / 2 ≡ b / 2 =
      eq_of_digits k (a / 2) (b / 2) (omega (arith, pow-suc 2 k)) (omega (arith, pow-suc 2 k))
        (λ i. e (suc i)) in
    omega (arith, e 0, half)

-- The digits past a word's width are 0.
pub digit-eq-zero : (k x i : ℕ) → x < 2 ^ k → k ≤ i → digit x i ≡ 0
unfolding digit
digit-eq-zero zero x i hx hi = let e : x ≡ 0 = omega arith in rw (e, digit-zero i) refl
digit-eq-zero (suc k) x zero hx hi = absurd (omega arith)
digit-eq-zero (suc k) x (suc i) hx hi =
    digit-eq-zero k (x / 2) i (omega (arith, pow-suc 2 k)) (omega arith)

-- A word is below `2 ^ k` if its digits from `k` on are 0.
pub lt_of_digits : (n k x : ℕ) → x < 2 ^ n → ((i : ℕ) → k ≤ i → digit x i ≡ 0) → x < 2 ^ k
unfolding digit
lt_of_digits zero k x hx e = omega (arith, one-le-pow k 2)
lt_of_digits (suc n) zero x hx e =
    let half : x / 2 < 2 ^ 0 =
      lt_of_digits n 0 (x / 2) (omega (arith, pow-suc 2 n)) (λ i h. e (suc i) (omega arith)) in
    omega (arith, e 0 (omega arith), half)
lt_of_digits (suc n) (suc k) x hx e =
    let half : x / 2 < 2 ^ k =
      lt_of_digits n k (x / 2) (omega (arith, pow-suc 2 n)) (λ i h. e (suc i) (omega arith)) in
    omega (arith, half, pow-suc 2 k)

zero-bit_and : (b : ℕ) → bit_and 0 b ≡ 0
zero-bit_and b = simp bit_and-bitwise

pub bit_or_lt : (k a b : ℕ) → a < 2 ^ k → b < 2 ^ k → bit_or a b < 2 ^ k
bit_or_lt zero a b ha hb =
    let ea : a ≡ 0 = omega arith in let eb : b ≡ 0 = omega arith in rw (ea, eb) (omega arith)
bit_or_lt (suc k) a b ha hb =
    let half : bit_or (a / 2) (b / 2) < 2 ^ k =
      bit_or_lt k (a / 2) (b / 2) (omega (arith, pow-suc 2 k)) (omega (arith, pow-suc 2 k)) in
    omega (arith, half, or_digits a b, pow-suc 2 k)

pub bit_and_lt : (k a b : ℕ) → a < 2 ^ k → bit_and a b < 2 ^ k
bit_and_lt zero a b ha = let ea : a ≡ 0 = omega arith in rw (ea, zero-bit_and b) (omega arith)
bit_and_lt (suc k) a b ha =
    let half : bit_and (a / 2) (b / 2) < 2 ^ k =
      bit_and_lt k (a / 2) (b / 2) (omega (arith, pow-suc 2 k)) in
    omega (arith, half, and_digits a b, pow-suc 2 k)
