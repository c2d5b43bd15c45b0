-- ===== src/Queue/Settings.antt =====
-- The constructor and the setters of `queue`.
use Prim.Native.Nat.{bit_or}
use cpp_atmi.Prelude.{
  ℕ, Bool, true, false, Option, none, some, [], ◌∷◌, ◌++◌, ◌==◌, ltb, if◌then◌else◌,
}
use cpp_atmi.Prelude.Int.{pos}
use cpp_atmi.Prelude.Lists.{length}
use cpp_atmi.Atmi.Codes.{Constants}
use cpp_atmi.Atmi.Texts.{Text, Texts, num, bytes, strncpy, clear}
use cpp_atmi.Atmi.Calls.{Atmi, Queueing, Qctl}
use cpp_atmi.Exceptions.{atmi_exception}
use cpp_atmi.Method.{Method, Outcome, pure, throw, this, assign, reads, ◌>>=◌, ◌>>◌}
use cpp_atmi.Tuxedo.{construct, message}
use cpp_atmi.Tuxedo.Flags.{set, unset}
use cpp_atmi.Tuxedo.Masks.{has}
use cpp_atmi.Queue.{Queue}

module _ {W : Type 0} where
  -- `_qctl.flags = f`, and other assignments to `_qctl`.
  abbrev pub assign_qctl : (Qctl → Qctl) → Method Queue W (Unit {0})
  assign_qctl f = assign (λ q. record q { qctl = f q.qctl })

  unfoldable pub set_queue_space : Option Text → Method Queue W (Unit {0})
  set_queue_space qs = assign (λ q. record q { qspace = qs })

  unfoldable pub set_queue_name : Option Text → Method Queue W (Unit {0})
  set_queue_name n = assign (λ q. record q { name = n })

unfoldable pub is_message_waiting : ⦃k : Constants⦄ → Queue → Bool
is_message_waiting ⦃k⦄ q = has q.qctl.flags k.tpqwait

-- TPQDELIVERYQOS | TPQREPLYQOS
abbrev pub qos_flags : ⦃k : Constants⦄ → ℕ
qos_flags ⦃k⦄ = bit_or k.tpqdeliveryqos k.tpqreplyqos

-- TPQCORRID | TPQGETBYCORRID
abbrev pub corrid_flags : ⦃k : Constants⦄ → ℕ
corrid_flags ⦃k⦄ = bit_or k.tpqcorrid k.tpqgetbycorrid

module _ {W : Type 0} ⦃k : Constants⦄ where
  open k use {
    tpnoflags, tpqwait, tpqreplyq, tmqnamelen, tmcorridlen, tpqqosdefaultpersist, tpqqospersistent,
    tpqqosnonpersistent,
  }

  unfoldable pub set_reply_queue : Option Text → Method Queue W (Unit {0})
  set_reply_queue (some reply) = do
    assign_qctl (λ c. record c { flags = set c.flags tpqreplyq })
    assign_qctl (λ c. record c { replyqueue = strncpy c.replyqueue reply tmqnamelen })
  set_reply_queue none = assign_qctl (λ c. record c { flags = unset c.flags tpqreplyq })

  unfoldable pub set_message_wait : Bool → Method Queue W (Unit {0})
  set_message_wait true = assign_qctl (λ c. record c { flags = set c.flags tpqwait })
  set_message_wait false = assign_qctl (λ c. record c { flags = unset c.flags tpqwait })

  -- One supported case of the switch.
  unfoldable pub choose_qos : ℕ → Method Queue W (Unit {0})
  choose_qos level =
      assign_qctl
        λ c. record c { flags = set c.flags qos_flags; delivery_qos = level; reply_qos = level }

  unfoldable pub set_quality_of_service : ⦃t : Texts⦄ → ℕ → Method Queue W (Unit {0})
  unfolding choose_qos message
  set_quality_of_service qos = do
    assign_qctl (λ c. record c { flags = unset c.flags qos_flags })
    if qos == tpqqosdefaultpersist
        then choose_qos tpqqosdefaultpersist
        else if qos == tpqqospersistent
        then choose_qos tpqqospersistent
        else if qos == tpqqosnonpersistent
        then choose_qos tpqqosnonpersistent
        else do
          catd ← this (λ q. q.catd)
          throw (
              atmi_exception (message catd 23 "Unsupported QoS (%d) for /Q operations.")
                (num (pos qos) ∷ []))

  unfoldable pub set_new_corrid : ⦃s : Queueing W⦄ → Method Queue W (Unit {0})
  set_new_corrid ⦃s⦄ = do
    stamp ← reads s.stamp
    let corrid = bytes "ID" ++ stamp
    assign_qctl (λ c. record c { corrid = clear c.corrid tmcorridlen })
    assign_qctl λ c. record c {
      corrid =
          strncpy c.corrid corrid
            (if ltb tmcorridlen (length corrid) then tmcorridlen else length corrid);
    }
    this (λ q. set q.qctl.flags (corrid_flags)) >>= λ _. pure tt

  unfoldable pub unset_corrid : Method Queue W (Unit {0})
  unset_corrid = do
    this (λ q. unset q.qctl.flags (corrid_flags)) >>= λ _. pure tt
    assign_qctl (λ c. record c { corrid = clear c.corrid tmcorridlen })

  -- The constructor: `raw` is what the memory of the TPQCTL held before.
  unfoldable pub initialise :
      ⦃t : Texts⦄ → Option Text → Option Text → Option Text → Method Queue W (Unit {0})
  unfolding set_message_wait set_quality_of_service set_reply_queue
  initialise qspace queue reply = do
    assign (λ q. record q { qspace = qspace; name = queue })
    assign (λ q. record q { tuxedo = record q.tuxedo { flags = tpnoflags } })
    assign_qctl (λ c. record c { flags = tpnoflags })
    set_message_wait true
    set_quality_of_service tpqqosdefaultpersist
    set_reply_queue reply

  unfoldable pub new :
      ⦃t : Texts⦄
      → ⦃a : Atmi W⦄ → Option Text
      → Option Text
      → Option Text
      → Qctl
      → W
      → Outcome (Unit {0}) × Queue × W
  unfolding initialise construct
  new qspace queue reply raw w =
      let (base, w') = construct w in
      initialise qspace queue reply
        (record { tuxedo = base; qspace = none; name = none; diagno = none; qctl = raw }) w'
