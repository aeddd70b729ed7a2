-- ===== src/Gateway/Structured/Requests.antt =====
-- internal/gateway/structured.go: the items of a request and of a response.
use cliproxy_portal.Common.{ℕ, Bool, false, not, ◌&&◌, ◌||◌, Option, none, some, List, [], ◌∷◌, ◌++◌, if◌then◌else◌, codes, same}
use cliproxy_portal.Gateway.Identity.Patches.{has_suffix}
use cliproxy_portal.Gateway.Structured.{
  Value, boolean, text, array, object, Items, no_item, item, Members, no_member, Strings, message,
  tool_call, tool_result, RecordEvent, find, at_key, string_field, first_value, text_record,
  tool_call_record, tool_result_record,
}

-- A loop over a list that passes over what is no object.
abbrev pub for_objects : (Members → List RecordEvent) → Items → List RecordEvent
for_objects f no_item = []
for_objects f (item (object members) items) = f members ++ for_objects f items
for_objects f (item _ items) = for_objects f items

-- The loop over a value that may be a list.
abbrev pub for_list : (Members → List RecordEvent) → Value → List RecordEvent
for_list f (array items) = for_objects f items
for_list f _ = []

-- What is done with a value that may be an object.
abbrev pub with_object : (Members → List RecordEvent) → Value → List RecordEvent
with_object f (object members) = f members
with_object f _ = []

-- `object, _ := value.(map[string]any)`: no members where it is none.
abbrev pub members_of : Value → Members
members_of (object members) = members
members_of _ = no_member

-- `value == "…"`.
abbrev pub is_text : List ℕ → Value → Bool
is_text s (text s') = same s' s
is_text s _ = false

abbrev pub is_true : Value → Bool
is_true (boolean b) = b
is_true _ = false

-- The names of the calls by their ids; the last call with an id names it.
abbrev name_of : List ℕ → List RecordEvent → List ℕ
name_of id [] = []
name_of id (event ∷ events) =
    let later = name_of id events in
    if not (same later []) then later else elim (event.type) [
      | tool_call ↦ if same event.tool_call_id id && not (same id []) then event.tool_name else []
      | message ↦ []
      | tool_result ↦ []
    ]

abbrev tool_name_in : List RecordEvent → RecordEvent → List ℕ
tool_name_in all event = elim (event.type) [
  | tool_result ↦
      if same event.tool_name [] then name_of event.tool_call_id all else event.tool_name
  | message ↦ event.tool_name
  | tool_call ↦ event.tool_name
]

unfoldable pub fill_from : List RecordEvent → List RecordEvent → List RecordEvent
fill_from all [] = []
fill_from all (event ∷ events) =
    record event { tool_name = tool_name_in all event } ∷ fill_from all events

abbrev pub fill_tool_names : List RecordEvent → List RecordEvent
fill_tool_names events = fill_from events events

abbrev pub is_text_kind : List ℕ → Bool
is_text_kind kind =
    same kind (codes "text") || same kind (codes "input_text") || same kind (codes "output_text")

abbrev pub is_call_kind : List ℕ → Bool
is_call_kind kind = same kind (codes "function_call") || same kind (codes "custom_tool_call")

abbrev pub is_output_kind : List ℕ → Bool
is_output_kind kind =
    same kind (codes "function_call_output") || same kind (codes "custom_tool_call_output")

-- Neither the user nor the assistant speaks, or it is no message.
abbrev pub is_silent : (kind role : List ℕ) → Bool
is_silent kind role =
    (not (same role (codes "user")) && not (same role (codes "assistant")))
    || (not (same kind []) && not (same kind (codes "message")))

abbrev pub gemini_role : List ℕ → List ℕ
gemini_role role =
    if same role (codes "model")
    then codes "assistant"
    else if same role []
    then codes "user"
    else role

abbrev pub if_present :
    Option Value → (Value → List RecordEvent) → List RecordEvent → List RecordEvent
if_present none f later = later
if_present (some value) f later = f value

module _ (go : Strings) where
  abbrev pub content_part : List ℕ → Members → List RecordEvent
  content_part role part =
      let kind = string_field part (codes "type") in
      if is_text_kind kind
      then text_record go role (string_field part (codes "text"))
      else if same kind (codes "tool_use")
      then (if same role (codes "assistant")
          then tool_call_record go (string_field part (codes "name"))
              (string_field part (codes "id")) (at_key part (codes "input"))
          else [])
      else if same kind (codes "tool_result") && same role (codes "user")
      then tool_result_record go [] (string_field part (codes "tool_use_id"))
          (at_key part (codes "content"))
      else []

  unfoldable pub content_record_events : List ℕ → Value → List RecordEvent
  content_record_events role (text value) = text_record go role value
  content_record_events role value = for_list (content_part role) value

  abbrev pub call_record : Members → List RecordEvent
  call_record call =
      let function = members_of (at_key call (codes "function")) in
      tool_call_record go (string_field function (codes "name")) (string_field call (codes "id"))
        (at_key function (codes "arguments"))

  abbrev pub function_record : Members → List RecordEvent
  function_record function =
      tool_call_record go (string_field function (codes "name")) []
        (at_key function (codes "arguments"))

  -- A message of the user or of the assistant.
  abbrev pub message_events : List ℕ → Members → List RecordEvent
  message_events role entry =
      content_record_events role (at_key entry (codes "content"))
      ++ (if same role (codes "assistant")
          then for_list call_record (at_key entry (codes "tool_calls"))
            ++ with_object function_record (at_key entry (codes "function_call"))
          else [])

  abbrev pub role_events : (kind role : List ℕ) → Members → List RecordEvent
  role_events kind role entry =
      if same role (codes "tool")
      then tool_result_record go (string_field entry (codes "name"))
          (string_field entry (codes "tool_call_id")) (at_key entry (codes "content"))
      else if is_silent kind role
      then []
      else message_events role entry

  -- An item by its type and its role.
  unfoldable pub kind_events : (kind role : List ℕ) → Members → List RecordEvent
  unfolding content_record_events
  kind_events kind role entry =
      if same kind (codes "reasoning")
      then []
      else if is_call_kind kind
      then tool_call_record go (string_field entry (codes "name"))
          (string_field entry (codes "call_id"))
          (first_value entry (codes "arguments" ∷ codes "input" ∷ []))
      else if is_output_kind kind
      then tool_result_record go (string_field entry (codes "name"))
          (string_field entry (codes "call_id")) (at_key entry (codes "output"))
      else if has_suffix kind (codes "_call")
      then tool_call_record go kind (string_field entry (codes "call_id")) (
          first_value entry
            (codes "arguments" ∷ codes "input" ∷ codes "action" ∷ codes "query" ∷ []))
      else role_events kind role entry

  unfoldable pub item_record_events : Members → List RecordEvent
  unfolding kind_events
  item_record_events entry =
      kind_events (string_field entry (codes "type")) (string_field entry (codes "role")) entry

  unfoldable pub input_record_events : Value → List RecordEvent
  unfolding item_record_events fill_from
  input_record_events (text value) = text_record go (codes "user") value
  input_record_events (array items) = fill_tool_names (for_objects item_record_events items)
  input_record_events (object entry) = fill_tool_names (item_record_events entry)
  input_record_events _ = []

  abbrev pub gemini_part : List ℕ → Members → List RecordEvent
  gemini_part role piece =
      if is_true (at_key piece (codes "thought"))
      then []
      else (if same (string_field piece (codes "text")) []
          then []
          else text_record go role (string_field piece (codes "text")))
        ++ (if same role (codes "assistant")
            then with_object
                (λ call.
                  tool_call_record go (string_field call (codes "name"))
                    (string_field call (codes "id")) (at_key call (codes "args")))
                (at_key piece (codes "functionCall"))
            else [])
        ++ with_object
            (λ result.
              tool_result_record go (string_field result (codes "name"))
                (string_field result (codes "id")) (at_key result (codes "response")))
            (at_key piece (codes "functionResponse"))

  abbrev pub gemini_item : Members → List RecordEvent
  gemini_item entry =
      let role = gemini_role (string_field entry (codes "role")) in
      if not (same role (codes "user")) && not (same role (codes "assistant"))
      then []
      else for_list (gemini_part role) (at_key entry (codes "parts"))

  unfoldable pub gemini_record_events : Value → List RecordEvent
  gemini_record_events value = for_list gemini_item value

  abbrev pub choice_message : Members → List RecordEvent
  choice_message choice = with_object item_record_events (at_key choice (codes "message"))

  -- A candidate's content goes through the loop over contents as the only one.
  abbrev pub candidate_content : Members → List RecordEvent
  candidate_content candidate =
      with_object (λ content. gemini_record_events (array (item (object content) no_item)))
        (at_key candidate (codes "content"))

  -- A response that is one JSON document.
  unfoldable pub response_object_record_events : Members → List RecordEvent
  unfolding item_record_events gemini_record_events
  response_object_record_events payload =
      for_list item_record_events (at_key payload (codes "output"))
      ++ for_list choice_message (at_key payload (codes "choices"))
      ++ (if is_text (codes "message") (at_key payload (codes "type"))
            && is_text (codes "assistant") (at_key payload (codes "role"))
          then item_record_events payload
          else [])
      ++ for_list candidate_content (at_key payload (codes "candidates"))

  -- The body of a request, nothing where it is no object.
  unfoldable pub request_record_events : Option Members → List RecordEvent
  unfolding input_record_events gemini_record_events
  request_record_events none = []
  request_record_events (some payload) =
      if_present (find (codes "input") payload) input_record_events (
        if_present (find (codes "messages") payload) input_record_events
          (if_present (find (codes "contents") payload) gemini_record_events []))
