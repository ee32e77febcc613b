-- ===== src/Tests/BusTests.antt =====
-- crates/sovalune-bus/src/lib.rs: runs over a client that keeps no message.
use sovalune_core.Common.{
  ℕ, ◌≡◌, refl, sym, ap, true, false, none, some, [], ◌∷◌, ◌++◌, Result, ok, err,
}
use sovalune_core.Text.{Text, codes, text_eq}
use sovalune_core.Json.{null, string, array, items, object_of, boolean}
use sovalune_core.Bus.{learning_cycle_finished, display}
use sovalune_core.Bus.Reading.{read_result}
use sovalune_core.Bus.Client.{
  Message, Client, result_subject, tool_call_message, tool_result_message, decay_tick_message,
  wait_for_tool_result,
}
use sovalune_core.Bus.Wire.{settled}
use sovalune_core.Bus.Delivery.{KeepsNothing, first_on, arrival, is_literal, wait-published}

-- its state is the number of its subscriptions
abbrev client : Client
client = record {
  State = ℕ;
  Subscriber = Text;
  publish = λ m w. (ok tt, w);
  subscribe = λ subject w. (ok subject, w);
  next = λ timeout_ms during subject w. arrival (first_on subject during);
  connected = λ w. true;
  parse_error = λ j. codes "parse error";
}

abbrev subscribed_to : Result Text Text × ℕ → Text
subscribed_to (ok subject, w) = subject
subscribed_to (err e, w) = e

client_KeepsNothing : KeepsNothing client
client_KeepsNothing = record {
  next_published = λ subject timeout_ms during w w' sub literal subscribed.
      ap (λ (s : Text). arrival (first_on s during)) (ap subscribed_to (sym subscribed));
}

abbrev other : Message
other = tool_call_message (codes "r1") none (codes "run_tests") null

subjects_differ :
    first_on (result_subject (codes "r1")) (other ∷ decay_tick_message none ∷ []) ≡ none
unfolding first_on tool_call_message decay_tick_message result_subject text_eq
subjects_differ = refl

result_literal : is_literal (result_subject (codes "r1")) ≡ true
unfolding is_literal result_subject
result_literal = refl

-- a null result comes back as none
wait-published_example :
    wait_for_tool_result client
      (codes "r1")
      5000
      ((other ∷ decay_tick_message none ∷ [])
        ++ tool_result_message (codes "r1") true (some null) none ∷ [])
      0
    ≡ ok (record { request_id = codes "r1"; ok = true; result = none; error = none })
unfolding settled
wait-published_example =
    wait-published client client_KeepsNothing (codes "r1") true (some null) none 5000
      (other ∷ decay_tick_message none ∷ []) [] 0 0 (result_subject (codes "r1")) result_literal
      refl subjects_differ

-- a field that occurs twice, a field of another type, an array in the order of the fields
read_twice :
    read_result (
      object_of (
        (codes "request_id", string (codes "r1"))
        ∷ (codes "ok", boolean true)
        ∷ (codes "ok", boolean false)
        ∷ []))
    ≡ none
unfolding read_result object_of sovalune_core.Text.text_eq
read_twice = refl

read_short :
    read_result (
      object_of (
        (codes "ok", boolean false)
        ∷ (codes "extra", null)
        ∷ (codes "request_id", string (codes "r1"))
        ∷ []))
    ≡ some (record { request_id = codes "r1"; ok = false; result = none; error = none })
unfolding read_result object_of sovalune_core.Text.text_eq
read_short = refl

read_array :
    read_result (
      array
        (items (string (codes "r1") ∷ boolean false ∷ null ∷ string (codes "no such tool") ∷ [])))
    ≡ some (record {
      request_id = codes "r1";
      ok = false;
      result = none;
      error = some (codes "no such tool");
    })
unfolding read_result items
read_array = refl

finished_subject : display learning_cycle_finished ≡ codes "learning.cycle.finished"
unfolding display
finished_subject = refl
