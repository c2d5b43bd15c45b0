-- ===== src/Tests/Clients.antt =====
-- The theorems on clients at concrete inputs.
use cpp_atmi.Prelude.{suc, ◌≡◌, refl, true, none, some, [], ◌∷◌, arith}
use cpp_atmi.Prelude.Int.{pos}
use cpp_atmi.Prelude.Lists.{length, take}
use cpp_atmi.Atmi.Codes.{tpappauth}
use cpp_atmi.Atmi.Texts.{Text, c_str, strncpy, IsPlain}
use cpp_atmi.Atmi.Calls.{Tpinit, Joining}
use cpp_atmi.Client.{AbstractClient, allotted, new}
use cpp_atmi.Client.Authentication.{Passwds, ask_passwds, put_apasswd, put_spasswd}
use cpp_atmi.Client.Factories.{new_queue_instance, new_transaction_instance}
use cpp_atmi.Client.Constructs.{Constructs, new-Constructs, new-overflows}
use cpp_atmi.Client.Prompts.{prompts-share}
use cpp_atmi.Client.Contexts.{Enters, Makes, factories-Enter}
use cpp_atmi.Tuxedo.{switch_context}
use cpp_atmi.Method.{ok}
use cpp_atmi.Tests.Domain.{
  World, constants, texts, atmi, queueing, start, base, space, first_queue, queue,
}
use cpp_atmi.Tests.Laws.{contextual}

-- The password typed last is the message of the example world, with its NUL.
instance abbrev pub joining : Joining World
joining = record {
  tpchkauth = λ w. (tpappauth, w);
  getpass = λ text w. (true, record w { message = 115 ∷ 101 ∷ 0 ∷ [] });
  prompted = λ w. w.message;
  tpinitneed = λ n. 100;
  getenv = λ name w. none;
  tuxputenv = λ s w. (pos 0, w);
  tpinit = λ info w. (pos 0, record w { current = pos 6 });
  tpterm = λ w. w;
}

abbrev pub ten : Text
ten = 0 ∷ 0 ∷ 0 ∷ 0 ∷ 0 ∷ 0 ∷ 0 ∷ 0 ∷ 0 ∷ 0 ∷ []

abbrev pub raw : Tpinit
raw = record {
  usrname = [];
  cltname = [];
  passwd = [];
  grpname = [];
  flags = 0;
  datalen = 0;
  data_bytes = ten;
}

abbrev short : Text
short = 97 ∷ 98 ∷ []

abbrev long : Text
long = 1 ∷ 2 ∷ 3 ∷ 4 ∷ 5 ∷ 6 ∷ 7 ∷ 8 ∷ 9 ∷ 10 ∷ []

new-Constructs_example :
    Constructs
      (some short)
      (some short)
      []
      (new none (some short) none (some short) none (some short) raw (start []))
unfolding allotted
new-Constructs_example =
    new-Constructs none (some short) none (some short) none (some short) raw (start [])
      (λ w e. ground (arith, e)) (λ e. ground (arith, e)) (λ e. ground (arith, e))
      (λ e. omega arith)

long-IsPlain : IsPlain long
long-IsPlain = ground arith

new-overflows_example : new none none none (some long) none none raw (start []) ≡ none
new-overflows_example =
    new-overflows none none none none none long raw (start []) long-IsPlain (omega arith) refl

prompts-share_example :
    let w₂ : World = record (start []) { message = 115 ∷ 101 ∷ 0 ∷ [] } in
    let n = suc (length (c_str (115 ∷ 101 ∷ 0 ∷ []))) in
    (ps : Passwds) × (info : Tpinit) × (ask_passwds tpappauth none none (start []) ≡ some (ps, w₂))
    × (put_apasswd ps raw w₂ ≡ some info)
    × (take n info.data_bytes ≡ take n (115 ∷ 101 ∷ 0 ∷ []))
    × ((put_spasswd ps.spasswd info w₂).passwd ≡ strncpy [] (c_str (115 ∷ 101 ∷ 0 ∷ [])) 30)
unfolding c_str
prompts-share_example =
    prompts-share raw (start []) (record (start []) { message = 115 ∷ 101 ∷ 0 ∷ [] }) refl refl refl
      (omega arith) (omega arith)

abbrev pub client : AbstractClient
client = record { tuxedo = base; name = []; tuxconfig = []; tpinfo = raw }

factories-Enter_example :
    let (r, q, w₁) =
      new_queue_instance
        (some space)
        (some first_queue)
        none
        (queue first_queue).qctl
        client
        (start []) in
    (r ≡ ok tt)
    × (q.qspace ≡ some space)
    × (q.name ≡ some first_queue)
    × Enters (λ (w : World). w.current) (pos 4) (switch_context q.tuxedo (start []))
    × Makes
        (λ (w : World). w.current)
        short
        (pos 4)
        (start [])
        (new_transaction_instance short client (start [])).0
factories-Enter_example =
    factories-Enter contextual client (some space) (some first_queue) none (queue first_queue).qctl
      short (start []) (start [])
