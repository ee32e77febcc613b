-- ===== src/Bus/Delivery.antt =====
-- crates/sovalune-bus/src/lib.rs: which result `wait_for_tool_result` returns.
use sovalune_core.Common.{
  ℕ, ◌≡◌, refl, ◌∙◌, Bool, true, false, ◌||◌, ◌==◌, Option, none, some, List, [], ◌∷◌, ◌++◌, ok,
  if◌then◌else◌, arith,
}
use sovalune_core.Text.{Text, text_eq}
use sovalune_core.Text.Equality.{text_eq_refl}
use sovalune_core.Json.{Json}
use sovalune_core.Bus.{ToolResult, result_json}
use sovalune_core.Bus.Wire.{settled, read_result-result_json}
use sovalune_core.Bus.Client.{
  Message, Next, arrived, timed_out, Client, result_subject, tool_result_message, parsed, received,
  wait_from, wait_for_tool_result,
}

-- a subject without the wildcards `*` and `>` of NATS
unfoldable pub is_literal : Text → Bool
is_literal [] = true
is_literal (c ∷ t) = if (c == 42) || (c == 62) then false else is_literal t

-- the first payload published on a subject
unfoldable pub first_on : Text → List Message → Option Json
first_on subject [] = none
first_on subject (m ∷ ms) =
    let rest = first_on subject ms in if text_eq subject m.subject then some m.payload else rest

unfoldable pub arrival : Option Json → Next
arrival (some payload) = arrived payload
arrival none = timed_out

-- Core NATS keeps no message: a subscription is given what is published on its subject from then on,
-- in its order, and nothing else.
pub record KeepsNothing (client : Client) : Type 0 where
  pub next_published :
      (subject : Text) (timeout_ms : ℕ) (during : List Message) (w w' : client.State)
      (sub : client.Subscriber)
      → is_literal subject ≡ true
      → client.subscribe subject w ≡ (ok sub, w')
      → client.next timeout_ms during sub w' ≡ arrival (first_on subject during)

first_on_append :
    (subject : Text) (payload : Json) (earlier later : List Message)
    → first_on subject earlier ≡ none
    → first_on subject (earlier ++ record { subject = subject; payload = payload } ∷ later)
      ≡ some payload
unfolding first_on
first_on_append subject payload [] later h = rw (text_eq_refl subject) refl
first_on_append subject payload (m ∷ ms) later h =
    ground (arith, first_on_append subject payload ms later)

module _ (client : Client) (keeps : KeepsNothing client) (request_id : Text) (timeout_ms : ℕ)
    (during : List Message) (w : client.State) (sub : client.Subscriber) (w' : client.State) where
  wait_arrival :
      is_literal (result_subject request_id) ≡ true
      → client.subscribe (result_subject request_id) w ≡ (ok sub, w')
      → wait_for_tool_result client request_id timeout_ms during w
        ≡ received client (arrival (first_on (result_subject request_id) during))
  unfolding wait_for_tool_result wait_from
  wait_arrival literal subscribed =
      rw
        (
          subscribed,
          keeps.next_published (result_subject request_id) timeout_ms during w w' sub literal
              subscribed,
        )
        refl

module _ (client : Client) (keeps : KeepsNothing client) (request_id : Text) (succeeded : Bool)
    (result : Option Json) (error : Option Text) (timeout_ms : ℕ) where
  -- A wait for the result of a request returns the first result that is published under the request's
  -- identifier while it waits, where that arrives in time, whatever is published after it and on other
  -- subjects. A result of null is returned as none. The identifier is without wildcards, and the
  -- subscription succeeds.
  pub wait-published :
      (earlier later : List Message) (w w' : client.State) (sub : client.Subscriber)
      → is_literal (result_subject request_id) ≡ true
      → client.subscribe (result_subject request_id) w ≡ (ok sub, w')
      → first_on (result_subject request_id) earlier ≡ none
      → wait_for_tool_result client request_id timeout_ms
          (earlier ++ tool_result_message request_id succeeded result error ∷ later)
          w
        ≡ ok (record {
          request_id = request_id;
          ok = succeeded;
          result = settled result;
          error = error;
        })
  unfolding tool_result_message arrival received parsed
  wait-published earlier later w w' sub literal subscribed quiet =
      let r : ToolResult = record {
        request_id = request_id;
        ok = succeeded;
        result = result;
        error = error;
      } in
      wait_arrival client keeps request_id timeout_ms
        (earlier ++ tool_result_message request_id succeeded result error ∷ later) w sub w' literal
        subscribed
      ∙ rw
          (
            first_on_append (result_subject request_id) (result_json r) earlier later quiet,
            read_result-result_json r,
          )
          refl
