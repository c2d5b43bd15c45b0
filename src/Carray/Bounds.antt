-- ===== src/Carray/Bounds.antt =====
-- The accesses of a carray to its memory stay within it, whatever is done with it.
use cpp_atmi.Prelude.{
  ℕ, zero, suc, ◌≤◌, ◌<◌, ◌≡◌, refl, Option, none, some, List, [], ◌∷◌, ltb, arith, ap, ◌∙◌,
  if◌then◌else◌,
}
use cpp_atmi.Prelude.Int.{ℤ, pos, negsuc}
use cpp_atmi.Prelude.Lists.{length, get_elem?, length-replicate}
use cpp_atmi.Atmi.Texts.{Text}
use cpp_atmi.Carray.{
  Carray, free_ressources, make_backend, set_char_array, get_char_array, assign_carray, char_at,
}
use cpp_atmi.Memory.{extent, memcpy-ok}

-- The backend has `buffer_size` bytes, of which the first `length` are the value.
pub record IsStored (c : Carray) : Type 0 where
  pub sized : extent c.value ≡ c.buffer_size
  pub within : c.length ≤ c.buffer_size

-- A call on a carray from outside.
pub data Use : Type 0 where
  fill : Option Text → ℕ → Use
  fetch : Option Text → ℕ → Use
  copy : Carray → Use
  free : Use
  index : ℤ → Use

-- What the caller has to see to: memory as long as it says, and an index in range.
abbrev pub IsAllowed : Use → Carray → Type 0
IsAllowed (fill carray size) c = size ≤ extent carray
IsAllowed (fetch carray size) c = size ≤ extent carray
IsAllowed (copy other) c = IsStored other
IsAllowed free c = Unit {0}
IsAllowed (index (pos i)) c = i < c.length
IsAllowed (index (negsuc i)) c = ⊥

abbrev kept : {A : Type 0} → Carray → Option A → Option Carray
kept c none = none
kept c (some v) = some c

abbrev after : Option (Option Text × Carray) → Option Carray
after none = none
after (some (to, c)) = some c

-- The field afterwards, or `none` if the call left the memory.
abbrev pub apply : Use → Carray → Option Carray
apply (fill carray size) c = set_char_array carray size c
apply (fetch carray size) c = after (get_char_array carray size c)
apply (copy other) c = assign_carray other c
apply free c = some (free_ressources c)
apply (index i) c = kept c (char_at i c)

-- Calls one after the other, each allowed where it is made.
abbrev pub AreAllowed : List Use → Option Carray → Type 0
AreAllowed us none = Unit {0}
AreAllowed [] (some c) = Unit {0}
AreAllowed (u ∷ us) (some c) = IsAllowed u c × AreAllowed us (apply u c)

unfoldable pub apply_all : List Use → Option Carray → Option Carray
apply_all us none = none
apply_all [] (some c) = some c
apply_all (u ∷ us) (some c) = apply_all us (apply u c)

pub free_ressources-IsStored : (c : Carray) → IsStored c → IsStored (free_ressources c)
unfolding free_ressources
free_ressources-IsStored c s = ground (arith, s)

make_backend-IsStored :
    (size : ℕ) (c : Carray)
    → IsStored c
    → IsStored (make_backend size c) × (size ≤ (make_backend size c).buffer_size)
unfolding make_backend free_ressources
make_backend-IsStored size c s = ground (arith, s, length-replicate {A = ℕ} size 0)

pub set_char_array-ok :
    (carray : Option Text) (size : ℕ) (c : Carray)
    → IsStored c
    → size ≤ extent carray
    → (c' : Carray) × (set_char_array carray size c ≡ some c') × IsStored c' × (c'.length ≡ size)
unfolding set_char_array
set_char_array-ok carray size c s h =
    let b = make_backend size c in
    let ready = make_backend-IsStored size c s in
    let (v, e, sized, bytes) =
      memcpy-ok b.value carray size (omega (arith, ready.0.sized, ready.1)) h in
    (
      record b { length = size; value = v },
      rw (e, set_char_array) refl,
      record { sized = omega (arith, sized, ready.0.sized); within = ready.1 },
      refl,
    )

get_elem?-some : (v : Text) (i : ℕ) → i < length v → (x : ℕ) × (get_elem? v i ≡ some x)
get_elem?-some [] i h = absurd (omega (arith, h))
get_elem?-some (x ∷ v) zero h = (x, refl)
get_elem?-some (x ∷ v) (suc i) h = get_elem?-some v i (omega (arith, h))

lesser : (m n : ℕ) → ((if ltb m n then m else n) ≤ m) × ((if ltb m n then m else n) ≤ n)
lesser m n = ground arith

-- What a caller is given is the start of the backend, as far as both reach.
pub get_char_array-ok :
    (carray : Option Text) (size : ℕ) (c : Carray)
    → IsStored c
    → size ≤ extent carray
    → (to : Option Text) × (c' : Carray) × (get_char_array carray size c ≡ some (to, c'))
      × IsStored c'
unfolding get_char_array
get_char_array-ok carray size c s h =
    let n = if ltb size c.buffer_size then size else c.buffer_size in
    let (below, within) = lesser size c.buffer_size in
    let (to, e, sized, bytes) =
      memcpy-ok carray c.value n (omega (arith, below, h)) (omega (arith, within, s.sized)) in
    (
      to,
      record c { length = n },
      rw (e, get_char_array) refl,
      record { sized = s.sized; within = within },
    )

get_elem?-behind :
    (v : Option Text) (i : ℕ) (c : Carray)
    → i < extent v
    → kept c (elim v [ none ↦ none | some bytes ↦ get_elem? bytes i ]) ≡ some c
get_elem?-behind none i c h = absurd (omega (arith, h))
get_elem?-behind (some v) i c h = ground (arith, get_elem?-some v i h)

char_at-kept :
    (i : ℕ) (c : Carray) → IsStored c → i < c.length → kept c (char_at (pos i) c) ≡ some c
unfolding char_at
char_at-kept i c s h = get_elem?-behind c.value i c (omega (arith, s.sized, s.within, h))

apply-IsStored :
    (u : Use) (c : Carray)
    → IsStored c
    → IsAllowed u c
    → (c' : Carray) × (apply u c ≡ some c') × IsStored c'
unfolding assign_carray
apply-IsStored (fill carray size) c s h =
    let (c', e, s', len) = set_char_array-ok carray size c s h in (c', e, s')
apply-IsStored (fetch carray size) c s h =
    let (to, c', e, s') = get_char_array-ok carray size c s h in (c', ap after e, s')
apply-IsStored (copy other) c s h =
    let (c', e, s', len) =
      set_char_array-ok other.value other.length c s (omega (arith, h.sized, h.within)) in
    (c', e, s')
apply-IsStored free c s h = (free_ressources c, refl, free_ressources-IsStored c s)
apply-IsStored (index (negsuc i)) c s h = absurd h
apply-IsStored (index (pos i)) c s h = (c, char_at-kept i c s h, s)

-- Whatever calls are made from outside on a carray whose backend has the size it says: as long
-- as each caller passes memory as long as it says, a well-formed carray to assign, and an index
-- within the length, no access leaves the memory, and the carray is well-formed at the end.
pub apply_all-IsStored :
    (us : List Use) (c : Carray)
    → IsStored c
    → AreAllowed us (some c)
    → (c' : Carray) × (apply_all us (some c) ≡ some c') × IsStored c'
unfolding apply_all
apply_all-IsStored [] c s h = (c, refl, s)
apply_all-IsStored (u ∷ us) c s h =
    let (c₁, e, s₁) = apply-IsStored u c s h.0 in
    let rest : AreAllowed us (some c₁) = rw (← e) h.1 in
    let (c₂, e₂, s₂) = apply_all-IsStored us c₁ s₁ rest in (c₂, ap (apply_all us) e ∙ e₂, s₂)
