-- ===== src/Transaction/Getters.antt =====
-- include/atmi/transaction.hpp: what a transaction gives away.
use cpp_atmi.Prelude.Int.{ℤ}
use cpp_atmi.Atmi.Texts.{Text}
use cpp_atmi.Transaction.{Transaction}

unfoldable pub call_descriptor : Transaction → ℤ
call_descriptor x = x.call_descriptor

unfoldable pub service : Transaction → Text
service x = x.service
