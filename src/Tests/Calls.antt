-- ===== src/Tests/Calls.antt =====
-- The theorems on single calls, fields and events at concrete inputs.
use cpp_atmi.Prelude.{arith, ◌≡◌, refl, ◌⊎◌, true, false, none, some, [], ◌∷◌}
use cpp_atmi.Prelude.Int.{pos, eqb, minus_one}
use cpp_atmi.Atmi.Codes.{tpetime}
use cpp_atmi.Atmi.Texts.{bytes}
use cpp_atmi.Method.{ok, Post}
use cpp_atmi.Tuxedo.{begin, commit, abort, switch_context, handle_tperrno}
use cpp_atmi.Tuxedo.Raises.{Handles, handle_tperrno-Handles}
use cpp_atmi.Tuxedo.Reports.{Reports, demarcation-Reports}
use cpp_atmi.Tuxedo.Contexts.{Switches, switch_context-Switches}
use cpp_atmi.Tuxedo.Setters.{set, reset, apply_all, apply_all-keeps}
use cpp_atmi.Queue.{Receiver}
use cpp_atmi.Queue.Transfer.{enqueue_in, dequeue_from}
use cpp_atmi.Queue.Outcomes.{Sends, Receives, enqueue_in-Sends, dequeue_from-Receives}
use cpp_atmi.Transaction.{Transaction, Caller, call, acall, reply}
use cpp_atmi.Transaction.Retries.{Tried, call-Tried}
use cpp_atmi.Transaction.Descriptors.{Settles, Answered, asked, Sent, acall-Sent, reply-Settles}
use cpp_atmi.Buffer.{size, Buffer, text_eqb}
use cpp_atmi.Transaction.Fielded as Fielded
use cpp_atmi.Field.{Site, add, add_string, get, get_string}
use cpp_atmi.Field.RoundTrip.{Reads, blank, get-add, get_string-add_string}
use cpp_atmi.Field.Types.{Typed, IsBlank, field_part, fields-Typed}
use cpp_atmi.Carray.{carray_field}
use cpp_atmi.Field.{string_field}
use cpp_atmi.Field.Values.{number_field}
use cpp_atmi.Event.{new, post}
use cpp_atmi.CallInfo.{CallInfo, set_ecid}
use cpp_atmi.CallInfo.Limits.{Takes, set_ecid-Takes}
use cpp_atmi.Event.Posts.{Posted, post-Posted}
use cpp_atmi.Tests.Domain.{
  World, constants, texts, atmi, services, queueing, fml, start, base, space, first_queue, queue,
}
use cpp_atmi.Tests.Laws.{contextual, store}

-- Two calls time out, and the third is answered.
abbrev client : Transaction
client = record { tuxedo = base; service = bytes "SVC"; call_descriptor = pos 7 }

abbrev caller : Caller
caller = record {
  transaction = client;
  buf = some 1;
  len = 3;
  urcode = some (pos 0);
  rc = minus_one;
}

call-Tried_example :
    Tried
      (some 1)
      3
      (pos 1)
      (pos 3)
      caller
      (switch_context base (start []))
      (call (some 1) 3 (pos 3) (pos 1) caller (start []))
call-Tried_example = call-Tried (some 1) 3 (pos 1) (pos 3) caller (start [])

acall-Sent_example :
    Sent
      (some 1)
      3
      (bytes "SVC")
      (switch_context base (start []))
      (acall (some 1) 3 client (start []))
acall-Sent_example = acall-Sent (some 1) 3 client (start [])

reply-Settles_example :
    let (d, g) = services.tpgetrply (asked (some (pos 7)) (pos 7)) (some 1) 3 0 (start []) in
    let (cd', r, x', w') = reply (some (pos 7)) caller (start []) in
    Settles g.rc g.world r
    × Answered d (pos 7) (some (pos 7)) cd' x'.transaction.call_descriptor
    × (x'.buf ≡ g.buf)
    × (x'.len ≡ g.len)
    × (w' ≡ g.world)
reply-Settles_example = reply-Settles (some (pos 7)) caller (start [])

abbrev fielded : Buffer
fielded = record { tuxedo = base; buffer = some 2; allocated = true; extent = 1024 }

replies-Refers_example :
    let caller = Fielded.caller_for none client fielded (start []) in
    Fielded.Refers fielded
      (call fielded.buffer (size fielded (start [])) (pos 3) (pos 0) caller (start []))
      (Fielded.call_buffer none (pos 3) (pos 0) client fielded (start []))
    × (let (cd', r, c, w₁) = reply none caller (start []) in
        let (cd'', r', c', b', w') = Fielded.reply_buffer none none client fielded (start []) in
        Fielded.RefersUnless fielded (r, c, w₁) (r', c', b', w'))
replies-Refers_example = Fielded.replies-Refers none none (pos 3) (pos 0) client fielded (start [])

-- A field with the value "AB", in a buffer that has to be extended.
abbrev site : Site
site = record {
  field = record { id = pos 3; occurence = pos 0; name = bytes "NAME"; value = 65 ∷ 66 ∷ [] };
  buffer = fielded;
}

-- The same value in a field that is no string.
abbrev number_site : Site
number_site = record site { field = record site.field { id = pos 4 } }

get-add_example :
    Post
      (λ rc x' w'. Reads (65 ∷ 66 ∷ []) (get x'.field.occurence (blank (0 ∷ 0 ∷ []) x') w'))
      (λ e x' w'. Unit {0})
      (add number_site (start []))
get-add_example = get-add store (0 ∷ 0 ∷ []) number_site (start []) (λ e. ground (arith, e)) refl

get_string-add_string_example :
    Post
      (λ rc x' w'. Reads (65 ∷ 66 ∷ []) (get_string x'.field.occurence (blank [] x') w'))
      (λ e x' w'. Unit {0})
      (add_string site (start []))
get_string-add_string_example = get_string-add_string store [] site (start []) refl (ground arith)

enqueue_in-Sends_example :
    Sends (some space) (some first_queue) (some 1) 3 (queue first_queue) (start ((65 ∷ []) ∷ [])) (
      enqueue_in
        (some space)
        (some first_queue)
        (some 1)
        3
        (queue first_queue)
        (start ((65 ∷ []) ∷ [])))
enqueue_in-Sends_example =
    enqueue_in-Sends (some space) (some first_queue) (some 1) 3 (queue first_queue)
      (start ((65 ∷ []) ∷ []))

abbrev receiver : Receiver
receiver = record { queue = queue first_queue; buf = some 1; len = 3 }

dequeue_from-Receives_example :
    Receives
      (some space)
      (some first_queue)
      receiver
      (start [])
      (dequeue_from (some space) (some first_queue) receiver (start []))
dequeue_from-Receives_example =
    dequeue_from-Receives (some space) (some first_queue) receiver (start [])

handle_tperrno-Handles_example :
    let (r, c', w') = handle_tperrno tpetime (bytes "late") [] base (start []) in
    Handles tpetime (start []) r × (c' ≡ base) × (w' ≡ start [])
handle_tperrno-Handles_example = handle_tperrno-Handles tpetime (bytes "late") [] base (start [])

switch_context-Switches_example :
    Switches (λ (w : World). w.current) base (start []) (switch_context base (start []))
switch_context-Switches_example = switch_context-Switches contextual base (start [])

demarcation-Reports_example :
    Reports base false (atmi.tpbegin (pos 9) (start [])) (begin (pos 9) base (start []))
    × Reports base true (atmi.tpcommit (start [])) (commit base (start []))
    × Reports base true (atmi.tpabort (start [])) (abort base (start []))
demarcation-Reports_example = demarcation-Reports base (start []) (pos 9)

apply_all-keeps_example :
    let (r, c', w') = apply_all (set 8 ∷ reset 4 ∷ []) base (start []) in
    (r ≡ ok tt) × ((c'.flags ≡ 0) ⊎ (c'.flags ≡ 0)) × (w' ≡ start [])
apply_all-keeps_example = apply_all-keeps (set 8 ∷ reset 4 ∷ []) base (start [])

post-Posted_example :
    let (e, w₁) = new (bytes "EVENT") (start []) in
    let (rc, w₂) = services.tppost (some (bytes "EVENT")) (some 1) 3 0 w₁ in
    let (r, e', w') = post (some 1) 3 e w₁ in Posted rc w₂ r × (w' ≡ w₂)
post-Posted_example = post-Posted (bytes "EVENT") (some 1) 3 (start [])

abbrev info : CallInfo
info = record { buffer = fielded; ecid = site.field }

set_ecid-Takes_example :
    Takes
      (67 ∷ [])
      info
      (start [])
      (fml.fchg32 (some 2) (pos 3) (pos 0) (67 ∷ []) 1 (start []))
      (set_ecid (67 ∷ []) info (start []))
set_ecid-Takes_example = set_ecid-Takes (67 ∷ []) info (start [])

fields-Typed_example :
    Typed
      (bytes "NAME")
      []
      (λ id. eqb (fml.fldtype32 id) (pos 5))
      (fml.fldid32 (bytes "NAME") (start []))
      (string_field (bytes "string") (bytes "NAME") (start []))
    × Typed
        (bytes "NAME")
        (bytes "0")
        (λ id. text_eqb (bytes "string") (fml.ftype32 id))
        (fml.fldid32 (bytes "NAME") (start []))
        (number_field (bytes "string") (bytes "0") (bytes "NAME") (start []))
    × Typed
        (bytes "NAME")
        []
        (λ id. eqb (fml.fldtype32 id) (pos 6))
        (fml.fldid32 (bytes "NAME") (start []))
        (field_part (carray_field (bytes "NAME") (start [])))
    × IsBlank (carray_field (bytes "NAME") (start []))
fields-Typed_example = fields-Typed (bytes "string") (bytes "0") (bytes "NAME") (start [])
