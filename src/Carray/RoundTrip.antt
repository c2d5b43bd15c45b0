-- ===== src/Carray/RoundTrip.antt =====
-- A value that was added to a buffer from a carray is read back into any carray.
use cpp_atmi.Prelude.{
  ℕ, ◌≤◌, ◌<◌, ◌≡◌, ◌≢◌, refl, Option, ◌⊎◌, inl, inr, List, [], ◌∷◌, ◌++◌, arith, Bool-cases, some,
  none, ltb, ◌==◌,
}
use cpp_atmi.Prelude.Int.{ℤ, pos, minus_one, eqb_iff}
use cpp_atmi.Prelude.Lists.{length, take, drop, length-append, length-take, take-length_append}
use cpp_atmi.Atmi.Codes.{Constants, fnospace}
use cpp_atmi.Atmi.Texts.{Text, Texts}
use cpp_atmi.Atmi.Calls.{Atmi, Ptr}
use cpp_atmi.Atmi.Fml.{Fml}
use cpp_atmi.Method.{Outcome, ok, Post, >>=-Post, Post-mono, try_catch}
use cpp_atmi.Field.{set_field_occurence, make_room, Site}
use cpp_atmi.Field.Store.{IsStore, IsString, get_elem?-last}
use cpp_atmi.Field.RoundTrip.{IsLastAdded, find_occurence-Post}
use cpp_atmi.Carray.{
  Carray, Place, free_ressources, get_alloc, call_fget32, refill, get, content, put_value, add,
  no_estimate, on_site,
}
use cpp_atmi.Memory.{extent, behind, written, length-behind}
use cpp_atmi.Carray.Bounds.{IsStored}

-- The `get` returns, and the carray holds `v`.
abbrev pub Holds : {W : Type 0} → Text → Outcome ℤ × Place × W → Type 0
Holds v o = Post (λ rc x w. (content x.carray ≡ v) × (x.carray.length ≡ length v)) (λ e x w. ⊥) o

-- Another carray for the same field and occurence.
abbrev pub with_backend : Carray → Place → Place
with_backend c x = record x { carray = record c { field = x.carray.field } }

abbrev site : Place → Site
site x = record { field = x.carray.field; buffer = x.buffer }

take-length : (v : Text) → take (length v) v ≡ v
take-length [] = refl
take-length (b ∷ v) = ground (arith, take-length v)

take-written :
    (v rest : Text) (old : Option Text)
    → 0 < extent old
    → (elim (written (v ++ rest) old) [ none ↦ [] | some u ↦ take (length v) u ]) ≡ v
take-written v rest none h = absurd (omega (arith, h))
take-written v rest (some u) h = take-length_append v rest

written-some : (v : Text) (old : Option Text) → 0 < extent old → written v old ≢ none
written-some v none h = absurd (omega (arith, h))
written-some v (some u) h = λ e. ground (arith, e)

freed-id : (c : Carray) → (free_ressources c).field.id ≡ c.field.id
unfolding free_ressources
freed-id c = ground arith

freed-empty :
    (c : Carray)
    → c.value ≢ none
    → ((free_ressources c).buffer_size ≡ 0) × ((free_ressources c).field ≡ c.field)
unfolding free_ressources
freed-empty c h = ground (arith, h)

length-taken :
    (v : Option Text) (n : ℕ) → n ≤ extent v → length (elim v [ none ↦ [] | some u ↦ take n u ]) ≡ n
length-taken none n h = omega (arith, h)
length-taken (some u) n h = omega (arith, h, length-take n u)

length-content : (c : Carray) → IsStored c → length (content c) ≡ c.length
length-content c s = length-taken c.value c.length (omega (arith, s.sized, s.within))

module _ {W : Type 0} ⦃a : Atmi W⦄ ⦃t : Texts⦄ ⦃f : Fml W⦄ ⦃k : Constants⦄
    {values : W → Ptr → ℤ → List Text} (law : IsStore values) where
  -- The last occurence of the field, behind `vs`, has the value `v`.
  abbrev IsLast : Text → List Text → Place → W → Type 0
  IsLast v vs x w = IsLastAdded law v vs (site x) w

  get_alloc-Holds :
      (v : Text) (vs : List Text) (x : Place) (w : W)
      → ¬ IsString (f.fldtype32 x.carray.field.id)
      → IsLast v vs x w
      → x.carray.buffer_size ≡ 0
      → Holds v (get_alloc x w)
  unfolding get_alloc
  get_alloc-Holds v vs x w other l h =
      let i = length vs in
      ground (
        arith,
        l,
        h,
        take-length v,
        get_elem?-last vs v i (omega (arith, length-append vs (v ∷ []))),
        law.got_alloc x.buffer.buffer x.carray.field.id i v w other,
      )

  put_value-Post :
      (x : Place) (w : W)
      → ¬ IsString (f.fldtype32 x.carray.field.id)
      → IsStored x.carray
      → Post
          (λ rc x' w'.
            (vs : List Text) × IsLast (content x.carray) vs x' w'
            × (x'.carray.field.id ≡ x.carray.field.id))
          (λ e x' w'. Unit {0})
          (put_value x w)
  unfolding put_value
  put_value-Post x w other s =
      let v = content x.carray in
      let vs = values w x.buffer.buffer x.carray.field.id in
      let (rc, w₁) = f.fadd32 x.buffer.buffer x.carray.field.id v x.carray.length w in
      Post-mono {P = λ rc' x' w'. IsLast v vs x' w' × (x'.carray.field.id ≡ x.carray.field.id)}
        (put_value x w) (λ rc' x' w' l. (vs, l.0, l.1)) (λ e x' w' u. u)
        (ground (
          arith,
          length-content x.carray s,
          law.added x.buffer.buffer x.carray.field.id v w (λ e. absurd (other e)),
          find_occurence-Post law v vs (site x) w₁,
        ))

  make_room-Post :
      (n : ℕ) (x : Place) (w : W)
      → Post
          (λ u x' w'. x'.carray ≡ x.carray)
          (λ e x' w'. Unit {0})
          (try_catch (on_site (make_room n)) no_estimate x w)
  unfolding make_room no_estimate
  make_room-Post n x w = ground arith

  -- The value fits, or the call says that it does not.
  abbrev IsRead : Text → List Text → ℤ → Place → W → Type 0
  IsRead v vs rc x w =
      (x.carray.value ≢ none)
      × (¬ IsString (f.fldtype32 x.carray.field.id))
      × (((rc ≢ minus_one) × Holds v (ok rc, x, w) × (length v ≤ x.carray.buffer_size))
          ⊎ ((rc ≡ minus_one) × (f.ferror32 w ≡ fnospace) × IsLast v vs x w))

  call_fget32-Post :
      (v : Text) (vs : List Text) (x : Place) (w : W)
      → ¬ IsString (f.fldtype32 x.carray.field.id)
      → IsLast v vs x w
      → IsStored x.carray
      → 0 < x.carray.buffer_size
      → Post (IsRead v vs) (λ e x' w'. ⊥) (call_fget32 x.carray.field.occurence x w)
  unfolding call_fget32
  call_fget32-Post v vs x w other l s h =
      let c = x.carray in
      let i = length vs in
      let (rc, buff, n, w') =
        f.fget32 x.buffer.buffer c.field.id (pos i) (behind c.value) c.length w in
      ground (
        arith,
        l,
        s,
        get_elem?-last vs v i (omega (arith, length-append vs (v ∷ []))),
        law.got x.buffer.buffer c.field.id i c.length (behind c.value) v w other,
        law.too_long x.buffer.buffer c.field.id i c.length (behind c.value) v w other,
        length-behind c.value,
        written-some buff c.value (omega (arith, s.sized, h)),
        take-written v (drop (length v) (behind c.value)) c.value (omega (arith, s.sized, h)),
      )

  refill-Holds :
      (v : Text) (vs : List Text) (rc : ℤ) (x : Place) (w : W)
      → IsRead v vs rc x w
      → Holds v (refill rc x w)
  unfolding refill
  refill-Holds v vs rc x w h =
      let fresh = record x { carray = free_ressources x.carray } in
      ground (
        arith,
        h,
        eqb_iff rc minus_one,
        get_alloc-Holds v vs fresh w (rw (freed-id x.carray) h.1),
        freed-empty x.carray h.0,
      )

  get-Holds :
      (v : Text) (vs : List Text) (x : Place) (w : W)
      → ¬ IsString (f.fldtype32 x.carray.field.id)
      → IsLast v vs x w
      → IsStored x.carray
      → Holds v (get x.carray.field.occurence x w)
  unfolding get set_field_occurence
  get-Holds v vs x w other l s =
      let occ = x.carray.field.occurence in
      let here = record x {
        carray = record x.carray { field = set_field_occurence occ x.carray.field };
      } in
      let same : here ≡ x = rw l.0 refl in
      rw same (elim (Bool-cases (x.carray.buffer_size == 0)) [
        | inl e ↦ rw e (get_alloc-Holds v vs x w other l (ground (arith, e)))
        | inr e ↦ rw e (
            >>=-Post (IsRead v vs) _ _ (call_fget32 occ) refill x w
              (call_fget32-Post v vs x w other l s (ground (arith, e))) (refill-Holds v vs))
      ])

  add-Post :
      (x : Place) (w : W)
      → ¬ IsString (f.fldtype32 x.carray.field.id)
      → IsStored x.carray
      → Post
          (λ rc x' w'.
            (vs : List Text) × IsLast (content x.carray) vs x' w'
            × (x'.carray.field.id ≡ x.carray.field.id))
          (λ e x' w'. Unit {0})
          (add x w)
  unfolding add
  add-Post x w other s = elim (Bool-cases (ltb 0 x.carray.length)) [
    | inl some_value ↦ rw some_value (
        >>=-Post (λ u x' w'. x'.carray ≡ x.carray) _ _
          (try_catch (on_site (make_room x.carray.length)) no_estimate) (λ u. put_value) x w
          (make_room-Post x.carray.length x w)
          (λ u x₁ w₁ e.
            Post-mono (put_value x₁ w₁) (λ rc x' w' l. rw (← e) l) (λ e' x' w' h. h)
              (put_value-Post x₁ w₁ (rw e other) (rw e s))))
    | inr empty ↦ rw empty tt
  ]

  -- If the typed buffers do what is documented, and the field is not declared as a string: after
  -- an `add` of a carray that returns, a `get` of the field's occurence into any carray returns,
  -- whether it has no backend, one that is too small or one that is large enough. The carray
  -- then holds the bytes that were added, and their number.
  pub get-add_carray :
      (c : Carray) (x : Place) (w : W)
      → ¬ IsString (f.fldtype32 x.carray.field.id)
      → IsStored x.carray
      → IsStored c
      → Post
          (λ rc x' w'.
            Holds (content x.carray) (get x'.carray.field.occurence (with_backend c x') w'))
          (λ e x' w'. Unit {0})
          (add x w)
  get-add_carray c x w other s s' =
      Post-mono (add x w)
        (λ rc x' w' l.
          get-Holds (content x.carray) l.0 (with_backend c x') w' (rw l.2 other) l.1
            (record { sized = s'.sized; within = s'.within }))
        (λ e x' w' u. u) (add-Post x w other s)
