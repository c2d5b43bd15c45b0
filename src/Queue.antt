-- ===== src/Queue.antt =====
-- include/atmi/queue.hpp and src/queue.cpp: the class `queue`, messages in /Q queues.
pub mod Settings
pub mod Getters
pub mod Transfer
pub mod Outcomes
pub mod Modes
use cpp_atmi.Prelude.{ℕ, Option}
use cpp_atmi.Atmi.Codes.{Diagno}
use cpp_atmi.Atmi.Texts.{Text}
use cpp_atmi.Atmi.Calls.{Ptr, Qctl}
use cpp_atmi.Tuxedo.{Tuxedo}
use cpp_atmi.Method.{Method, on}

-- `_diagno` is not initialised: `none` until `handle_diagnostics` stores one.
pub record Queue : Type 0 where
  pub tuxedo : Tuxedo
  pub open tuxedo use *
  pub qspace : Option Text
  pub name : Option Text
  pub diagno : Option Diagno
  pub qctl : Qctl

-- A member function of the base class.
abbrev pub super : {W A : Type 0} → Method Tuxedo W A → Method Queue W A
super m = on (λ q. q.tuxedo) (λ t q. record q { tuxedo = t }) m

-- A queue and the caller's variables that a `char **` and a `long *` point to. What a call
-- stores there stays stored when it throws.
pub record Receiver : Type 0 where
  pub queue : Queue
  pub buf : Ptr
  pub len : ℕ

abbrev pub on_queue : {W A : Type 0} → Method Queue W A → Method Receiver W A
on_queue m = on (λ r. r.queue) (λ q r. record r { queue = q }) m
