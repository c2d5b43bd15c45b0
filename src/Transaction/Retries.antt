-- ===== src/Transaction/Retries.antt =====
-- How often `call` calls the service.
use Prim.Derive.{subst}
use mathlib.Core.Option
use cpp_atmi.Prelude.{
  if◌then◌else◌, true, false, Option, none, some, ℕ, zero, suc, ◌≤◌, ◌<◌, ◌≡◌, refl, ◌≢◌, ◌⊎◌, inl,
  inr, arith, Bool-cases, sym,
}
use cpp_atmi.Prelude.Int.{ℤ, pos, is_neg, is_pos, eqb, eqb_iff, pos_part}
use cpp_atmi.Atmi.Codes.{Errno, tpetime, tpesvcerr}
use cpp_atmi.Atmi.Texts.{Texts}
use cpp_atmi.Atmi.Calls.{Atmi, Services, Ptr}
use cpp_atmi.Method.{Outcome, ok, err, ◌>>◌}
use cpp_atmi.Tuxedo.{Tuxedo, switch_context}
use cpp_atmi.Transaction.{Transaction, Caller, store, pause, attempt, attempts, finish_call, call}
use cpp_atmi.Transaction.Descriptors.{Settles, check-Settles}

-- The object in the context that was entered.
abbrev pub entered : Caller → Tuxedo → Caller
entered x base = record x { transaction = record x.transaction { tuxedo = base } }

store-map : (u : Option ℤ) (c : ℤ) → store u c ≡ Option.map (λ old. c) u
store-map none c = refl
store-map (some old) c = refl

module _ {W : Type 0} ⦃a : Atmi W⦄ ⦃t : Texts⦄ ⦃s : Services W⦄ (idata : Ptr) (ilen : ℕ)
    (delay : ℤ) where
  -- The variables and the world after `n` attempts.
  abbrev pub tries : ℕ → Caller → W → Caller × W
  tries zero x w = (x, w)
  tries (suc n) x w = let (r, x', w') = attempt idata ilen delay x w in tries n x' w'

  -- `n` is the least number of attempts, `limit + 1` at most, the last of which returned 0, and
  -- `limit + 1` if none did.
  pub record IsLast (limit n : ℕ) (x : Caller) (w : W) : Type 0 where
    pub bound : n ≤ limit
    pub before : (i : ℕ) → i < n → (tries (suc i) x w).0.rc ≢ pos 0
    pub last : ((tries (suc n) x w).0.rc ≡ pos 0) ⊎ (n ≡ limit)

  pause-ok : (e : Errno) (x : Caller) (w : W) → (pause delay e x w).0 ≡ ok tt
  unfolding pause
  pause-ok tpetime x w = ground arith
  pause-ok tpesvcerr x w = ground arith
  pause-ok _ x w = refl

  -- The world after the sleep between two attempts, if there is one.
  abbrev pub slept : Errno → W → W
  slept tpetime w = if is_pos delay then s.sleep delay w else w
  slept tpesvcerr w = if is_pos delay then s.sleep delay w else w
  slept e w = w

  pause-sleeps : (e : Errno) (x : Caller) (w : W) → pause delay e x w ≡ (ok tt, x, slept e w)
  unfolding pause
  pause-sleeps tpetime x w = ground arith
  pause-sleeps tpesvcerr x w = ground arith
  pause-sleeps _ x w = refl

  attempt-ok : (x : Caller) (w : W) → (attempt idata ilen delay x w).0 ≡ ok tt
  unfolding attempt
  attempt-ok x w =
      let r = s.tpcall x.transaction.service idata ilen x.buf x.len x.transaction.flags w in
      let x₁ : Caller = record x { buf = r.buf; len = r.len; rc = r.rc } in
      ground (arith, pause-ok (a.tperrno r.world) x₁ r.world)

  shift :
      (limit n : ℕ) (x : Caller) (w : W)
      → (tries 1 x w).0.rc ≢ pos 0
      → (let (r, x₁, w₁) = attempt idata ilen delay x w in IsLast limit n x₁ w₁)
      → IsLast (suc limit) (suc n) x w
  shift limit n x w more l = record {
    bound = ground (arith, l.bound);
    before = elim [ zero ↦ λ h. more | suc i ↦ λ h. l.before i (omega arith) ];
    last = ground (arith, l.last);
  }

  -- The loop of `call`, with `limit` attempts left after the first, never throws. It stops at
  -- the first attempt that returns 0, and otherwise makes the first and `limit` more.
  pub attempts-IsLast :
      (limit : ℕ) (x : Caller) (w : W)
      → (n : ℕ) × IsLast limit n x w
        × (let (x', w') = tries (suc n) x w in
            attempts limit idata ilen delay x w ≡ (ok tt, x', w'))
  unfolding attempts
  attempts-IsLast zero x w = (
    0,
    record { bound = omega arith; before = λ i h. absurd (omega arith); last = inr refl },
    ground (arith, attempt-ok x w),
  )
  attempts-IsLast (suc limit) x w =
      let (r, x₁, w₁) = attempt idata ilen delay x w in
      elim (Bool-cases (eqb x₁.rc (pos 0))) [
        | inl stop ↦ (
          0,
          record {
            bound = omega arith;
            before = λ i h. absurd (omega arith);
            last = inl ((eqb_iff x₁.rc (pos 0)).0 stop);
          },
          ground (arith, attempt-ok x w, stop),
        )
        | inr more ↦
            let (n, l, e) = attempts-IsLast limit x₁ w₁ in
            (
              suc n,
              shift limit n x w (ground (arith, eqb_iff x₁.rc (pos 0), more)) l,
              ground (arith, attempt-ok x w, more, e),
            )
      ]

  finish_call-Settles :
      (x : Caller) (w : W)
      → let (r, x', w') = finish_call x w in
        Settles x.rc w r × (x'.buf ≡ x.buf) × (x'.len ≡ x.len) × (x'.urcode ≡ x.urcode) × (w' ≡ w)
  unfolding finish_call
  finish_call-Settles x w =
      let x₁ : Transaction = record x.transaction {
        tuxedo = record x.transaction.tuxedo {
          errorno = a.tperrno w;
          errornodetail = a.tperrordetail w;
        };
      } in
      ground (arith, check-Settles "TPCALL to %s failed." x.rc x₁ w)

  -- What one attempt does: it calls the service once, with the buffers of the caller, who finds
  -- the reply, its length and the result in its variables. After a result that is not negative
  -- the application's code is stored, where the caller asked for it. After a failure the attempt
  -- sleeps, if there is a delay, for TPETIME and TPESVCERR only.
  abbrev pub Attempts : Caller → W → Caller → W → Type 0
  Attempts x w x' w' =
      let r = s.tpcall x.transaction.service idata ilen x.buf x.len x.transaction.flags w in
      (x'.buf ≡ r.buf)
      × (x'.len ≡ r.len)
      × (x'.rc ≡ r.rc)
      × (x'.transaction ≡ x.transaction)
      × (is_neg r.rc ≡ false
          → (x'.urcode ≡ Option.map (λ old. a.tpurcode r.world) x.urcode) × (w' ≡ r.world))
      × (is_neg r.rc ≡ true → (x'.urcode ≡ x.urcode) × (w' ≡ slept (a.tperrno r.world) r.world))

  attempt-Attempts :
      (x : Caller) (w : W) → let (o, x', w') = attempt idata ilen delay x w in Attempts x w x' w'
  unfolding attempt
  attempt-Attempts x w =
      let r = s.tpcall x.transaction.service idata ilen x.buf x.len x.transaction.flags w in
      let x₁ : Caller = record x { buf = r.buf; len = r.len; rc = r.rc } in
      ground (
        arith,
        pause-sleeps (a.tperrno r.world) x₁ r.world,
        store-map x.urcode (a.tpurcode r.world),
      )

  -- The attempts follow on one another.
  abbrev pub Follow : ℕ → Caller → W → Type 0
  Follow n x w =
      (i : ℕ)
      → i ≤ n
      → let (y, v) = tries i x w in let (y', v') = tries (suc i) x w in Attempts y v y' v'

  tries-Attempts :
      (i : ℕ) (x : Caller) (w : W)
      → let (y, v) = tries i x w in let (y', v') = tries (suc i) x w in Attempts y v y' v'
  tries-Attempts zero x w = attempt-Attempts x w
  tries-Attempts (suc i) x w =
      let (r, x', w') = attempt idata ilen delay x w in tries-Attempts i x' w'

  -- The result of `call`, when it calls with the variables `x` in the world `w`: the attempts
  -- that the retries allow are made, and the last of them settles it.
  abbrev pub Calls : ℤ → Caller → W → Outcome ℤ × Caller × W → Type 0
  Calls retries x w (r, x', w') =
      (n : ℕ) × IsLast (pos_part retries) n x w
      × Follow n x w
      × (let (x₂, w₂) = tries (suc n) x w in
          Settles x₂.rc w₂ r
          × (x'.buf ≡ x₂.buf)
          × (x'.len ≡ x₂.len)
          × (x'.urcode ≡ x₂.urcode)
          × (w' ≡ w₂))

  made :
      (retries : ℤ) (x : Caller) (w : W) (n : ℕ)
      → IsLast (pos_part retries) n x w
      → (out : Outcome (Unit {0}) × Caller × W)
      → (let (x₂, w₂) = tries (suc n) x w in out ≡ (ok tt, x₂, w₂))
      → Calls retries x w
          (let (r, x₂, w₂) = out in elim r [ ok v ↦ finish_call x₂ w₂ | err e ↦ (err e, x₂, w₂) ])
  made retries x w n l out e =
      let (x₂, w₂) = tries (suc n) x w in
      subst
        (λ (o : Outcome (Unit {0}) × Caller × W).
          Calls retries x w
            (let (r, x₃, w₃) = o in elim r [ ok v ↦ finish_call x₃ w₃ | err e ↦ (err e, x₃, w₃) ]))
        (sym e) (n, l, (λ i h. tries-Attempts i x w), finish_call-Settles x₂ w₂)

  -- What `call` does when it has switched contexts.
  abbrev resume : ℤ → Caller → Outcome (Unit {0}) × Tuxedo × W → Outcome ℤ × Caller × W
  resume retries x out =
      let (o, base, w₁) = out in
      elim o [
        | ok v ↦ (attempts (pos_part retries) idata ilen delay >> finish_call) (entered x base) w₁
        | err e ↦ (err e, entered x base, w₁)
      ]

  -- The switch of context threw, and `call` throws the same without a call; or it did not, and
  -- `call` makes its attempts in that context.
  abbrev pub Tried : ℤ → Caller → Outcome (Unit {0}) × Tuxedo × W → Outcome ℤ × Caller × W → Type 0
  Tried retries x (err e, base, w₁) out = out ≡ (err e, entered x base, w₁)
  Tried retries x (ok v, base, w₁) out = Calls retries (entered x base) w₁ out

  enters :
      (retries : ℤ) (x : Caller) (out : Outcome (Unit {0}) × Tuxedo × W)
      → Tried retries x out (resume retries x out)
  enters retries x (ok v, base, w₁) =
      let (n, l, e) = attempts-IsLast (pos_part retries) (entered x base) w₁ in
      made retries (entered x base) w₁ n l
        (attempts (pos_part retries) idata ilen delay (entered x base) w₁) e
  enters retries x (err e, base, w₁) = refl

  -- `call` enters its context first and throws what that throws, without a call. Otherwise it
  -- makes attempts until one returns 0, at most one more than there are retries. Each attempt
  -- calls the service once with the buffers as the one before left them, stores the reply, its
  -- length and the result, and the application's code where the result is not negative; it
  -- sleeps after a failure with TPETIME or TPESVCERR, if there is a delay. The last attempt
  -- settles what `call` returns or throws, and leaves the reply, its length and the
  -- application's code.
  pub call-Tried :
      (retries : ℤ) (x : Caller) (w : W)
      → Tried retries x (switch_context x.transaction.tuxedo w) (call idata ilen retries delay x w)
  unfolding call
  call-Tried retries x w = enters retries x (switch_context x.transaction.tuxedo w)
