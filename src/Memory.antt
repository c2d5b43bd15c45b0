-- ===== src/Memory.antt =====
-- `memcpy` between arrays, with the bounds that C leaves to the caller.
use cpp_atmi.Prelude.{
  ℕ, zero, suc, ◌≤◌, ◌≡◌, refl, Option, none, some, [], ◌++◌, ◌&&◌, leb, arith, if◌then◌else◌,
}
use cpp_atmi.Prelude.Lists.{length, take, drop, length-append, length-take, length-drop}
use cpp_atmi.Atmi.Texts.{Text}

-- `memcpy ( to, from, n )`: what `to` points to then. Both pointers are NULL or at the start of an
-- array; `none` is an access outside of one of them.
unfoldable pub memcpy : Option Text → Option Text → ℕ → Option (Option Text)
memcpy to from zero = some to
memcpy (some to) (some from) (suc n) =
    if leb (suc n) (length to) && leb (suc n) (length from)
    then some (some (take (suc n) from ++ drop (suc n) to))
    else none
memcpy _ _ (suc n) = none

-- The size of the array behind a pointer.
abbrev pub extent : Option Text → ℕ
extent none = 0
extent (some v) = length v

-- The bytes behind a pointer.
abbrev pub behind : Option Text → Text
behind none = []
behind (some v) = v

-- A pointer to memory that has been written to.
abbrev pub written : Text → Option Text → Option Text
written v none = none
written v (some old) = some v

length-copy :
    (n : ℕ) (to from : Text)
    → n ≤ length to
    → n ≤ length from
    → length (take n from ++ drop n to) ≡ length to
length-copy n to from p q =
    omega (arith, length-append (take n from) (drop n to), length-take n from, length-drop n to)

-- Within the bounds of both, the first `n` bytes are those of `from`, and the others stay.
pub memcpy-ok :
    (to from : Option Text) (n : ℕ)
    → n ≤ extent to
    → n ≤ extent from
    → (v : Option Text) × (memcpy to from n ≡ some v)
      × (extent v ≡ extent to)
      × (behind v ≡ take n (behind from) ++ drop n (behind to))
unfolding memcpy
memcpy-ok to from zero p q = (to, refl, refl, refl)
memcpy-ok (some to) (some from) (suc n) p q = (
  some (take (suc n) from ++ drop (suc n) to),
  ground (arith, p, q),
  length-copy (suc n) to from p q,
  refl,
)
memcpy-ok none from (suc n) p q = absurd (omega (arith, p))
memcpy-ok (some to) none (suc n) p q = absurd (omega (arith, q))

pub length-behind : (v : Option Text) → length (behind v) ≡ extent v
length-behind none = refl
length-behind (some v) = refl

-- A call that keeps to the bounds of the memory leaves its size.
pub extent-written :
    (v : Text) (old : Option Text)
    → length v ≡ length (behind old)
    → extent (written v old) ≡ extent old
extent-written v none h = refl
extent-written v (some old) h = h
