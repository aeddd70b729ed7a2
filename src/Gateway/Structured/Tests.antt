-- ===== src/Gateway/Structured/Tests.antt =====
-- internal/gateway/structured.go: runs of the definitions, and the theorems at concrete inputs.
use cliproxy_portal.Common.{◌≡◌, refl, some, [], ◌∷◌, codes}
use cliproxy_portal.Gateway.Structured.{Value, text, array, object, Items, no_item, item, Members, no_member, member, Strings, message_event, result_event, omitted, text_record, tool_result_record}
use cliproxy_portal.Gateway.Structured.Requests.{input_record_events, request_record_events, response_object_record_events}
use cliproxy_portal.Gateway.Structured.Recorded.{AreRecorded, request_record_events-AreRecorded}
use cliproxy_portal.Gateway.Structured.Private.{without_private, input_record_events-without_private}

-- Strings that are lower-case and trimmed already.
abbrev strings : Strings
strings = record { to_lower = λ s. s; trim_space = λ s. s; marshal = λ v. codes "json" }

abbrev entry_of : (role content : Value) → Value
entry_of role content =
    object (member (codes "role") role (member (codes "content") content no_member))

abbrev items : Items
items =
    item (entry_of (text (codes "system")) (text (codes "secret")))
      (item (entry_of (text (codes "user")) (text (codes "hello"))) no_item)

abbrev image_result : Value
image_result = object (
    member (codes "type") (text (codes "function_call_output")) (
      member (codes "call_id") (text (codes "1"))
        (member (codes "output") (text (codes "data:image/png")) no_member)))

abbrev payload : Members
payload = member (codes "input") (array (item image_result items)) no_member

-- The system's message is not recorded, and the image of a result is left out.
recorded :
    request_record_events strings (some payload)
    ≡ result_event [] (codes "1") omitted ∷ message_event (codes "user") (codes "hello") ∷ []
unfolding request_record_events text_record tool_result_record
recorded = refl

request_record_events-AreRecorded_example :
    AreRecorded strings (request_record_events strings (some payload))
request_record_events-AreRecorded_example = request_record_events-AreRecorded strings (some payload)

abbrev response : Members
response = member (codes "type") (text (codes "message")) (
    member (codes "role") (text (codes "assistant"))
      (member (codes "content") (text (codes "hi")) no_member))

response-recorded :
    response_object_record_events strings response
    ≡ message_event (codes "assistant") (codes "hi") ∷ []
unfolding response_object_record_events text_record
response-recorded = refl

input_record_events-without_private_example :
    input_record_events strings (array items)
    ≡ input_record_events strings (array (without_private items))
input_record_events-without_private_example = input_record_events-without_private strings items

-- A text of a message is recorded as it is, also where it is media data.
media_text-recorded :
    input_record_events strings (text (codes "data:image/png;base64,AA=="))
    ≡ message_event (codes "user") (codes "data:image/png;base64,AA==") ∷ []
unfolding input_record_events text_record
media_text-recorded = refl
