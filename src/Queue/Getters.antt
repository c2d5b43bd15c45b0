-- ===== src/Queue/Getters.antt =====
-- include/atmi/queue.hpp, include/atmi/transaction.hpp and include/atmi/abstract_client.hpp: the
-- values that the objects give away.
use cpp_atmi.Prelude.{ℕ, Bool, Option}
use cpp_atmi.Atmi.Codes.{Constants, Diagno}
use cpp_atmi.Atmi.Texts.{Text}
use cpp_atmi.Method.{Method}
use cpp_atmi.Queue.{Queue}
use cpp_atmi.Queue.Settings.{set_message_wait, is_message_waiting}

unfoldable pub reply_queue : Queue → Text
reply_queue q = q.qctl.replyqueue

unfoldable pub queue_space : Queue → Option Text
queue_space q = q.qspace

unfoldable pub queue_name : Queue → Option Text
queue_name q = q.name

unfoldable pub qctl_flags : Queue → ℕ
qctl_flags q = q.qctl.flags

-- `none` where it is not initialised.
unfoldable pub diagno : Queue → Option Diagno
diagno q = q.diagno

-- `setQWait` and `isQWaiting`
unfoldable pub set_qwait : {W : Type 0} ⦃k : Constants⦄ → Bool → Method Queue W (Unit {0})
unfolding set_message_wait
set_qwait wait = set_message_wait wait

unfoldable pub is_qwaiting : ⦃k : Constants⦄ → Queue → Bool
unfolding is_message_waiting
is_qwaiting q = is_message_waiting q
