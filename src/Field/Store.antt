-- ===== src/Field/Store.antt =====
-- What the documentation of FML32 promises of a typed buffer.
use cpp_atmi.Prelude.{
  ℕ, zero, suc, ◌≤◌, ◌<◌, ◌≡◌, refl, ◌≢◌, false, none, some, List, [], ◌∷◌, ◌++◌, arith,
}
use cpp_atmi.Prelude.Int.{ℤ, pos, minus_one, is_neg}
use cpp_atmi.Prelude.Lists.{length, drop, get_elem?, length-append}
use cpp_atmi.Atmi.Codes.{fnospace}
use cpp_atmi.Atmi.Texts.{Text, IsPlain}
use cpp_atmi.Atmi.Calls.{Ptr}
use cpp_atmi.Atmi.Fml.{Fml}

-- The type is FLD_STRING: 5 in fml32.h.
abbrev pub IsString : ℤ → Type 0
IsString type = type ≡ pos 5

-- A string ends at its first NUL, whatever length is passed.
abbrev pub IsWhole : ℤ → Text → Type 0
IsWhole type v = IsString type → IsPlain v

module _ {W : Type 0} ⦃f : Fml W⦄ where
  -- `values w p id` are the values of the field `id` in the buffer `p`, by occurence, a string
  -- without its NUL. Of a field that is no string, a value is read into memory that is long
  -- enough, and FNOSPACE is said of memory that is not. A string is read by Fgetsa32.
  pub record IsStore (values : W → Ptr → ℤ → List Text) : Type 0 where
    pub added :
        (p : Ptr) (id : ℤ) (v : Text) (w : W)
        → IsWhole (f.fldtype32 id) v
        → let (rc, w') = f.fadd32 p id v (length v) w in
          is_neg rc ≡ false → values w' p id ≡ values w p id ++ v ∷ []
    pub counted :
        (p : Ptr) (id : ℤ) (w : W)
        → let (rc, w') = f.foccur32 p id w in
          (is_neg rc ≡ false → rc ≡ pos (length (values w p id))) × (values w' p id ≡ values w p id)
    pub got :
        (p : Ptr) (id : ℤ) (i n : ℕ) (buff v : Text) (w : W)
        → ¬ IsString (f.fldtype32 id)
        → get_elem? (values w p id) i ≡ some v
        → length v ≤ n
        → n ≤ length buff
        → let (rc, buff', n', w') = f.fget32 p id (pos i) buff n w in
          (rc ≢ minus_one) × (buff' ≡ v ++ drop (length v) buff) × (n' ≡ length v)
    pub too_long :
        (p : Ptr) (id : ℤ) (i n : ℕ) (buff v : Text) (w : W)
        → ¬ IsString (f.fldtype32 id)
        → get_elem? (values w p id) i ≡ some v
        → n < length v
        → let (rc, buff', n', w') = f.fget32 p id (pos i) buff n w in
          (rc ≡ minus_one) × (f.ferror32 w' ≡ fnospace) × (values w' p id ≡ values w p id)
    pub got_string :
        (p : Ptr) (id : ℤ) (i : ℕ) (v : Text) (w : W)
        → IsString (f.fldtype32 id)
        → get_elem? (values w p id) i ≡ some v
        → (f.fgetsa32 p id (pos i) w).0 ≡ some v
    pub got_alloc :
        (p : Ptr) (id : ℤ) (i : ℕ) (v : Text) (w : W)
        → ¬ IsString (f.fldtype32 id)
        → get_elem? (values w p id) i ≡ some v
        → let (value, n, w') = f.fgetalloc32 p id (pos i) 0 w in (value ≡ some v) × (n ≡ length v)

-- What the calls leave in the memory of the caller, found or not: they keep to its bounds, and a
-- call that finds no value leaves the length alone.
pub record IsBounded (W : Type 0) ⦃f : Fml W⦄ : Type 0 where
  pub filled :
      (p : Ptr) (id occ : ℤ) (buff : Text) (n : ℕ) (w : W)
      → let (rc, buff', n', w') = f.fget32 p id occ buff n w in length buff' ≡ length buff
  pub unfilled :
      (p : Ptr) (id occ : ℤ) (buff : Text) (n : ℕ) (w : W)
      → let (rc, buff', n', w') = f.fget32 p id occ buff n w in
        rc ≡ minus_one → f.ferror32 w' ≢ fnospace → n' ≡ n
  pub allocated :
      (p : Ptr) (id occ : ℤ) (w : W)
      → let (value, n, w') = f.fgetalloc32 p id occ 0 w in
        n ≡ (elim value [ none ↦ 0 | some v ↦ length v ])

pub get_elem?-last :
    {A : Type 0} (xs : List A) (x : A) (n : ℕ)
    → length (xs ++ x ∷ []) ≡ suc n
    → get_elem? (xs ++ x ∷ []) n ≡ some x
get_elem?-last [] x zero h = refl
get_elem?-last [] x (suc n) h = absurd (omega (arith, h))
get_elem?-last (y ∷ xs) x zero h = absurd (omega (arith, h, length-append xs (x ∷ [])))
get_elem?-last (y ∷ xs) x (suc n) h = get_elem?-last xs x n (omega (arith, h))

-- A value that fills the memory leaves nothing behind it.
pub append-drop : (v buff : Text) → length v ≡ length buff → v ++ drop (length v) buff ≡ v
append-drop [] [] h = refl
append-drop [] (c ∷ buff) h = absurd (omega (arith, h))
append-drop (c ∷ v) [] h = absurd (omega (arith, h))
append-drop (c ∷ v) (d ∷ buff) h = ground (arith, append-drop v buff)
