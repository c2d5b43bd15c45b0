-- ===== src/Method.antt =====
-- A member function: it changes its object and the world, and returns or throws. What was
-- written before a throw stays written.
use cpp_atmi.Prelude.{◌⊎◌, inl, inr, Bool, if◌then◌else◌, ◌≡◌, refl}
use cpp_atmi.Exceptions.{Exception}

pub data Outcome (A : Type 0) : Type 0 where
  ok : A → Outcome A
  err : Exception → Outcome A

-- `C` is the class of the object, `W` the world.
abbrev pub Method : Type 0 → Type 0 → Type 0 → Type 0
Method C W A = C → W → Outcome A × C × W

module _ {C W : Type 0} where
  abbrev pub pure : {A : Type 0} → A → Method C W A
  pure a c w = (ok a, c, w)

  abbrev pub throw : {A : Type 0} → Exception → Method C W A
  throw e c w = (err e, c, w)

  -- A field or a getter of the object.
  abbrev pub this : {A : Type 0} → (C → A) → Method C W A
  this f c w = (ok (f c), c, w)

  -- An assignment to fields of the object.
  abbrev pub assign : (C → C) → Method C W (Unit {0})
  assign f c w = (ok tt, f c, w)

  -- A library call that only reads.
  abbrev pub reads : {A : Type 0} → (W → A) → Method C W A
  reads f c w = (ok (f w), c, w)

  -- A library call.
  abbrev pub calls : {A : Type 0} → (W → A × W) → Method C W A
  calls f c w = let (a, w') = f w in (ok a, c, w')

  -- A library call that returns nothing.
  abbrev pub does : (W → W) → Method C W (Unit {0})
  does f c w = (ok tt, c, f w)

infixl 5 ◌>>=◌ ◌>>◌
abbrev pub ◌>>=◌ : {C W A B : Type 0} → Method C W A → (A → Method C W B) → Method C W B
◌>>=◌ m f c w = let (r, c', w') = m c w in elim r [ ok a ↦ f a c' w' | err e ↦ (err e, c', w') ]

abbrev pub ◌>>◌ : {C W B : Type 0} → Method C W (Unit {0}) → Method C W B → Method C W B
m >> k = m >>= λ _. k

abbrev pub when : {C W : Type 0} → Bool → Method C W (Unit {0}) → Method C W (Unit {0})
when b m = if b then m else pure tt

-- `try { m } catch (...) { h }`, where `h` is given the exception.
abbrev pub try_catch : {C W A : Type 0} → Method C W A → (Exception → Method C W A) → Method C W A
try_catch m h c w = let (r, c', w') = m c w in elim r [ ok a ↦ (ok a, c', w') | err e ↦ h e c' w' ]

-- A member function of a base class or of a part of the object.
abbrev pub on : {B C W A : Type 0} → (C → B) → (B → C → C) → Method B W A → Method C W A
on get put m c w = let (r, b, w') = m (get c) w in (r, put b c, w')

-- A postcondition of a method: `Q` where it returns, `R` where it throws.
abbrev pub Post :
    {C W A : Type 0}
    → (A → C → W → Type 0)
    → (Exception → C → W → Type 0)
    → Outcome A × C × W
    → Type 0
Post Q R (ok v, c, w) = Q v c w
Post Q R (err e, c, w) = R e c w

pub >>=-Post :
    {C W A B : Type 0} (P : A → C → W → Type 0) (Q : B → C → W → Type 0)
    (R : Exception → C → W → Type 0) (m : Method C W A) (f : A → Method C W B) (c : C) (w : W)
    → Post P R (m c w)
    → ((v : A) (c' : C) (w' : W) → P v c' w' → Post Q R (f v c' w'))
    → Post Q R ((m >>= f) c w)
>>=-Post P Q R m f c w h next = go (m c w) h
  where
    go :
        (out : Outcome _ × _ × _)
        → Post P R out
        → Post Q R (let (r, c', w') = out in elim r [ ok v ↦ f v c' w' | err e ↦ (err e, c', w') ])
    go (ok v, c', w') p = next v c' w' p
    go (err e, c', w') r = r

pub Post-mono :
    {C W A : Type 0} {P Q : A → C → W → Type 0} {R S : Exception → C → W → Type 0}
    (out : Outcome A × C × W)
    → ((v : A) (c : C) (w : W) → P v c w → Q v c w)
    → ((e : Exception) (c : C) (w : W) → R e c w → S e c w)
    → Post P R out
    → Post Q S out
Post-mono (ok v, c, w) f g h = f v c w h
Post-mono (err e, c, w) f g h = g e c w h

pub try_catch-Post :
    {C W A : Type 0} (Q : A → C → W → Type 0) (R S : Exception → C → W → Type 0) (m : Method C W A)
    (h : Exception → Method C W A) (c : C) (w : W)
    → Post Q R (m c w)
    → ((e : Exception) (c' : C) (w' : W) → R e c' w' → Post Q S (h e c' w'))
    → Post Q S (try_catch m h c w)
try_catch-Post Q R S m h c w p next = go (m c w) p
  where
    go :
        (out : Outcome _ × _ × _)
        → Post Q R out
        → Post Q S (let (r, c', w') = out in elim r [ ok v ↦ (ok v, c', w') | err e ↦ h e c' w' ])
    go (ok v, c', w') p = p
    go (err e, c', w') r = next e c' w' r

pub Outcome-cases :
    {A : Type 0} (o : Outcome A) → ((v : A) × (o ≡ ok v)) ⊎ ((e : Exception) × (o ≡ err e))
Outcome-cases (ok v) = inl (v, refl)
Outcome-cases (err e) = inr (e, refl)
