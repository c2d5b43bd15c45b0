-- ===== src/Queue/Modes.antt =====
-- The flags that the constructor and the setters of `queue` leave in the TPQCTL.
use cpp_atmi.Prelude.{
  ℕ, ◌<◌, ◌≡◌, refl, ◌≢◌, ◌⊎◌, Bool, true, false, not, Option, none, some, ◌++◌, arith, is_none,
}
use cpp_atmi.Prelude.Lists.{length, replicate, drop}
use cpp_atmi.Atmi.Codes.{Constants}
use cpp_atmi.Atmi.Texts.{Text, Texts, c_str, IsPlain, clear, c_str-strncpy}
use cpp_atmi.Atmi.Calls.{Queueing}
use cpp_atmi.Exceptions.{Class, atmi_exception}
use cpp_atmi.Method.{Outcome, ok, err}
use cpp_atmi.Tuxedo.Flags.{set, unset}
use cpp_atmi.Tuxedo.Masks.{
  IsFlags, IsDisjoint, has, has-set, has-unset, has-set_other, has-unset_other, set-IsFlags,
  unset-IsFlags,
}
use cpp_atmi.Queue.{Queue}
use cpp_atmi.Queue.Settings.{
  qos_flags, set_message_wait, is_message_waiting, set_reply_queue, set_quality_of_service,
  initialise, set_new_corrid, unset_corrid,
}

-- What atmi.h promises of the TPQCTL flags: each has a bit of its own.
pub record IsFlagTable ⦃k : Constants⦄ : Type 0 where
  pub none_set : k.tpnoflags ≡ 0
  pub wait_fits : IsFlags k.tpqwait
  pub wait_bit : k.tpqwait ≢ 0
  pub reply_fits : IsFlags k.tpqreplyq
  pub reply_bit : k.tpqreplyq ≢ 0
  pub qos_fits : IsFlags qos_flags
  pub qos_bit : qos_flags ≢ 0
  pub wait_reply : IsDisjoint k.tpqwait k.tpqreplyq
  pub reply_wait : IsDisjoint k.tpqreplyq k.tpqwait
  pub wait_qos : IsDisjoint k.tpqwait qos_flags
  pub qos_wait : IsDisjoint qos_flags k.tpqwait
  pub reply_qos : IsDisjoint k.tpqreplyq qos_flags
  pub qos_reply : IsDisjoint qos_flags k.tpqreplyq

module _ {W : Type 0} ⦃k : Constants⦄ (table : IsFlagTable) (q : Queue) (w : W)
    (fits : IsFlags q.qctl.flags) where
  open k use {tpqwait, tpqreplyq}

  -- Under the documented bits of the flags, the mode of `set_message_wait` is read back by
  -- `is_message_waiting`, and the flags of the reply queue and of the quality of service are as
  -- they were.
  pub is_message_waiting-set_message_wait :
      (wait : Bool)
      → let (r, q', w') = set_message_wait {W = W} wait q w in
        (r ≡ ok tt)
        × (is_message_waiting q' ≡ wait)
        × (has q'.qctl.flags tpqreplyq ≡ has q.qctl.flags tpqreplyq)
        × (has q'.qctl.flags qos_flags ≡ has q.qctl.flags qos_flags)
  unfolding set_message_wait is_message_waiting
  is_message_waiting-set_message_wait true = (
    refl,
    has-set q.qctl.flags tpqwait fits table.wait_fits,
    has-set_other q.qctl.flags tpqreplyq fits tpqwait table.wait_fits table.wait_reply,
    has-set_other q.qctl.flags qos_flags fits tpqwait table.wait_fits table.wait_qos,
  )
  is_message_waiting-set_message_wait false = (
    refl,
    has-unset q.qctl.flags tpqwait fits table.wait_fits table.wait_bit,
    has-unset_other q.qctl.flags tpqreplyq fits tpqwait table.wait_fits table.wait_reply,
    has-unset_other q.qctl.flags qos_flags fits tpqwait table.wait_fits table.wait_qos,
  )

  -- `set_quality_of_service` ends with a supported level in both places and its flags set, or
  -- with an atmi_exception for a level that is none of the three.
  abbrev pub Chooses : ℕ → Outcome (Unit {0}) × Queue × W → Type 0
  Chooses qos (ok v, q', w') =
      ((qos ≡ k.tpqqosdefaultpersist) ⊎ (qos ≡ k.tpqqospersistent) ⊎ (qos ≡ k.tpqqosnonpersistent))
      × (q'.qctl.delivery_qos ≡ qos)
      × (q'.qctl.reply_qos ≡ qos)
      × (has q'.qctl.flags qos_flags ≡ true)
  Chooses qos (err x, q', w') =
      (x.class ≡ Class.atmi)
      × (qos ≢ k.tpqqosdefaultpersist)
      × (qos ≢ k.tpqqospersistent)
      × (qos ≢ k.tpqqosnonpersistent)
      × (q'.qctl.delivery_qos ≡ q.qctl.delivery_qos)
      × (q'.qctl.reply_qos ≡ q.qctl.reply_qos)
      × (has q'.qctl.flags qos_flags ≡ false)

  pub set_quality_of_service-Chooses :
      ⦃t : Texts⦄
      → (qos : ℕ)
      → let out = set_quality_of_service {W = W} qos q w in
        Chooses qos out
        × (is_message_waiting out.1 ≡ is_message_waiting q)
        × (has out.1.qctl.flags tpqreplyq ≡ has q.qctl.flags tpqreplyq)
  unfolding set_quality_of_service is_message_waiting atmi_exception
  set_quality_of_service-Chooses qos =
      let f : ℕ = q.qctl.flags in
      let g : ℕ = unset f qos_flags in
      let g_fits : IsFlags g = unset-IsFlags f qos_flags fits in
      ground (
        arith,
        has-set g qos_flags g_fits table.qos_fits,
        has-unset f qos_flags fits table.qos_fits table.qos_bit,
        has-unset_other f tpqwait fits qos_flags table.qos_fits table.qos_wait,
        has-unset_other f tpqreplyq fits qos_flags table.qos_fits table.qos_reply,
        has-set_other g tpqwait g_fits qos_flags table.qos_fits table.qos_wait,
        has-set_other g tpqreplyq g_fits qos_flags table.qos_fits table.qos_reply,
      )

  -- Under the documented bits of the flags, a name without a NUL that is shorter than TMQNAMELEN
  -- is read back by `reply_queue`, with TPQREPLYQ set and the wait mode as it was; NULL then
  -- unsets the flag.
  pub reply_queue-set_reply_queue :
      (name : Text)
      → IsPlain name
      → length name < k.tmqnamelen
      → let (r, q', w') = set_reply_queue {W = W} (some name) q w in
        (r ≡ ok tt)
        × (c_str q'.qctl.replyqueue ≡ name)
        × (has q'.qctl.flags tpqreplyq ≡ true)
        × (is_message_waiting q' ≡ is_message_waiting q)
        × (has (set_reply_queue {W = W} none q' w').1.qctl.flags tpqreplyq ≡ false)
  unfolding set_reply_queue is_message_waiting
  reply_queue-set_reply_queue name plain short = (
    refl,
    c_str-strncpy q.qctl.replyqueue name k.tmqnamelen plain short,
    has-set q.qctl.flags tpqreplyq fits table.reply_fits,
    has-set_other q.qctl.flags tpqwait fits tpqreplyq table.reply_fits table.reply_wait,
    has-unset (set q.qctl.flags tpqreplyq) tpqreplyq
        (set-IsFlags q.qctl.flags tpqreplyq fits table.reply_fits) table.reply_fits table.reply_bit,
  )

module _ ⦃k : Constants⦄ (table : IsFlagTable) where
  open k use {tpnoflags, tpqwait, tpqreplyq}

  -- The flags of the constructor before it looks at the reply queue.
  start_flags : ℕ
  start_flags = set (unset (set tpnoflags tpqwait) qos_flags) qos_flags

  start_flags-IsFlags : IsFlags start_flags
  unfolding start_flags
  start_flags-IsFlags =
      let f₀ : IsFlags tpnoflags = rw table.none_set (omega (arith, table.wait_fits)) in
      set-IsFlags (unset (set tpnoflags tpqwait) qos_flags) qos_flags
        (unset-IsFlags (set tpnoflags tpqwait) qos_flags
          (set-IsFlags tpnoflags tpqwait f₀ table.wait_fits))
        table.qos_fits

  -- What is known of them, and of them with TPQREPLYQ set or unset.
  start_flags_lem :
      (has (set start_flags tpqreplyq) tpqwait ≡ true)
      × (has (unset start_flags tpqreplyq) tpqwait ≡ true)
      × (has (set start_flags tpqreplyq) qos_flags ≡ true)
      × (has (unset start_flags tpqreplyq) qos_flags ≡ true)
      × (has (set start_flags tpqreplyq) tpqreplyq ≡ true)
      × (has (unset start_flags tpqreplyq) tpqreplyq ≡ false)
  unfolding start_flags
  start_flags_lem =
      let f₀ : IsFlags tpnoflags = rw table.none_set (omega (arith, table.wait_fits)) in
      let f₁ : IsFlags (set tpnoflags tpqwait) = set-IsFlags tpnoflags tpqwait f₀ table.wait_fits in
      let f₂ : IsFlags (unset (set tpnoflags tpqwait) qos_flags) =
        unset-IsFlags (set tpnoflags tpqwait) qos_flags f₁ in
      let f₃ : IsFlags start_flags = start_flags-IsFlags in
      let s : ℕ = start_flags in
      ground (
        arith,
        has-set tpnoflags tpqwait f₀ table.wait_fits,
        has-unset_other (set tpnoflags tpqwait) tpqwait f₁ qos_flags table.qos_fits table.qos_wait,
        has-set_other (unset (set tpnoflags tpqwait) qos_flags) tpqwait f₂ qos_flags table.qos_fits
            table.qos_wait,
        has-set (unset (set tpnoflags tpqwait) qos_flags) qos_flags f₂ table.qos_fits,
        has-set_other s tpqwait f₃ tpqreplyq table.reply_fits table.reply_wait,
        has-unset_other s tpqwait f₃ tpqreplyq table.reply_fits table.reply_wait,
        has-set_other s qos_flags f₃ tpqreplyq table.reply_fits table.reply_qos,
        has-unset_other s qos_flags f₃ tpqreplyq table.reply_fits table.reply_qos,
        has-set s tpqreplyq f₃ table.reply_fits,
        has-unset s tpqreplyq f₃ table.reply_fits table.reply_bit,
      )

-- A name of a reply queue that can be stored with its NUL, if there is one.
abbrev pub IsStorable : ⦃k : Constants⦄ → Option Text → Type 0
IsStorable none = Unit {0}
IsStorable ⦃k⦄ (some reply) = IsPlain reply × (length reply < k.tmqnamelen)

-- The name of the reply queue is stored.
abbrev pub RepliesTo : Option Text → Queue → Type 0
RepliesTo none q = Unit {0}
RepliesTo (some reply) q = c_str q.qctl.replyqueue ≡ reply

module _ {W : Type 0} ⦃k : Constants⦄ where
  open k use {tpqwait, tpqreplyq}

  -- Under the documented bits of the flags, and whatever the memory held, with a reply queue, if
  -- there is one, whose name has no NUL and is shorter than TMQNAMELEN: the constructor succeeds
  -- with TPQWAIT and the flags of the default quality of service set, and TPQREPLYQ exactly if a
  -- reply queue was given. It stores the names of the queue space, the queue and the reply
  -- queue.
  pub initialise-has :
      ⦃t : Texts⦄
      → IsFlagTable
      → (qspace queue reply : Option Text) (q : Queue) (w : W) → IsStorable reply
      → let (r, q', w') = initialise qspace queue reply q w in
        (r ≡ ok tt)
        × (is_message_waiting q' ≡ true)
        × (has q'.qctl.flags qos_flags ≡ true)
        × (q'.qctl.delivery_qos ≡ k.tpqqosdefaultpersist)
        × (q'.qctl.reply_qos ≡ k.tpqqosdefaultpersist)
        × (has q'.qctl.flags tpqreplyq ≡ not (is_none reply))
        × (q'.qspace ≡ qspace)
        × (q'.name ≡ queue)
        × RepliesTo reply q'
  unfolding initialise is_message_waiting start_flags
  initialise-has table qspace queue none q w fits = ground (arith, start_flags_lem table)
  initialise-has table qspace queue (some reply) q w (plain, short) =
      ground (
        arith,
        start_flags_lem table,
        c_str-strncpy q.qctl.replyqueue reply k.tmqnamelen plain short,
      )

  pub initialise-IsFlags :
      ⦃t : Texts⦄
      → IsFlagTable
      → (qspace queue reply : Option Text) (q : Queue) (w : W)
      → IsFlags (initialise qspace queue reply q w).1.qctl.flags
  unfolding initialise start_flags
  initialise-IsFlags table qspace queue none q w =
      ground (arith, unset-IsFlags (start_flags table) tpqreplyq (start_flags-IsFlags table))
  initialise-IsFlags table qspace queue (some reply) q w = ground (
    arith,
    set-IsFlags (start_flags table) tpqreplyq (start_flags-IsFlags table) table.reply_fits,
  )

  -- `set_new_corrid` stores the identifier and `unset_corrid` clears it, but neither changes a
  -- flag: TPQCORRID and TPQGETBYCORRID are as they were.
  pub corrid_keeps_flags :
      ⦃s : Queueing W⦄
      → (q : Queue) (w : W)
      → let (r, q', w') = set_new_corrid q w in
        let (r'', q'', w'') = unset_corrid q' w' in
        (r ≡ ok tt)
        × (q'.qctl.flags ≡ q.qctl.flags)
        × (q''.qctl.flags ≡ q.qctl.flags)
        × (q''.qctl.corrid ≡ replicate k.tmcorridlen 0 ++ drop k.tmcorridlen q'.qctl.corrid)
  unfolding set_new_corrid unset_corrid clear
  corrid_keeps_flags q w = (refl, refl, refl, refl)
