-- ===== src/Gateway/Structured/Recorded.antt =====
-- internal/gateway/structured.go: what the events of a request and of a response can hold.
use cliproxy_portal.Common.{ℕ, ◌≡◌, refl, Bool, true, false, not, ◌&&◌, ◌||◌, Option, none, some, List, [], ◌∷◌, ◌++◌, arith,
  if◌then◌else◌, All, codes, same}
use cliproxy_portal.Gateway.Identity.Patches.{has_suffix}
use cliproxy_portal.Gateway.Structured.{
  Value, null, boolean, number, text, array, object, Items, no_item, item, Members, Strings,
  RecordType, message, tool_call, tool_result, RecordEvent, safe_tool_value, find, at_key,
  string_field, text_record, tool_call_record, tool_result_record, message_event, call_event,
  result_event,
}
use cliproxy_portal.Gateway.Structured.Requests.{
  for_objects, for_list, with_object, fill_from, is_text_kind, is_call_kind, is_output_kind,
  is_silent, is_true, content_part, content_record_events, call_record, function_record,
  message_events, role_events, kind_events, item_record_events, input_record_events, gemini_part,
  gemini_item, gemini_role, gemini_record_events, if_present, request_record_events,
}
use cliproxy_portal.Gateway.Structured.Clean.{IsSafe, safe_tool_value-IsSafe}

module _ (go : Strings) where
  abbrev pub is_speaker : List ℕ → Bool
  is_speaker role = same role (codes "user") || same role (codes "assistant")

  abbrev pub IsRecordedAs : RecordType → (role content arguments result : List ℕ) → Type 0
  IsRecordedAs message role content arguments result =
      (is_speaker role ≡ true) × (arguments ≡ []) × (result ≡ [])
  IsRecordedAs tool_call role content arguments result =
      (role ≡ codes "assistant") × (content ≡ []) × IsSafe go arguments × (result ≡ [])
  IsRecordedAs tool_result role content arguments result =
      (role ≡ codes "tool") × (content ≡ []) × (arguments ≡ []) × IsSafe go result

  abbrev pub IsRecorded : RecordEvent → Type 0
  IsRecorded e = IsRecordedAs e.type e.role e.content e.arguments e.result

  pub record AreRecorded (events : List RecordEvent) : Type 0 where
    pub each : All IsRecorded events

  none-AreRecorded : AreRecorded []
  none-AreRecorded = record { each = tt }

  AreRecorded-if :
      (test : Bool) (l m : List RecordEvent)
      → (test ≡ true → AreRecorded l)
      → (test ≡ false → AreRecorded m)
      → AreRecorded (if test then l else m)
  AreRecorded-if true l m h k = h refl
  AreRecorded-if false l m h k = k refl

  AreRecorded-append :
      (l m : List RecordEvent) → AreRecorded l → AreRecorded m → AreRecorded (l ++ m)
  AreRecorded-append [] m h k = k
  AreRecorded-append (e ∷ l) m h k = record {
    each = (h.each.0, (AreRecorded-append l m record { each = h.each.1 } k).each);
  }

  unless-AreRecorded :
      (test : Bool) (event : RecordEvent)
      → IsRecorded event
      → AreRecorded (if test then [] else event ∷ [])
  unless-AreRecorded true event h = none-AreRecorded
  unless-AreRecorded false event h = record { each = (h, tt) }

  text_record-AreRecorded :
      (role value : List ℕ) → is_speaker role ≡ true → AreRecorded (text_record go role value)
  unfolding text_record
  text_record-AreRecorded role value h =
      unless-AreRecorded (same (go.trim_space value) []) (message_event role value) (h, refl, refl)

  call-AreRecorded :
      (name id : List ℕ) (args : Value) → AreRecorded (tool_call_record go name id args)
  unfolding tool_call_record
  call-AreRecorded name id args =
      let arguments = safe_tool_value go args in
      unless-AreRecorded (same name [] && same id [] && same arguments [])
        (call_event name id arguments) (refl, refl, safe_tool_value-IsSafe go args, refl)

  result-AreRecorded :
      (name id : List ℕ) (output : Value) → AreRecorded (tool_result_record go name id output)
  unfolding tool_result_record
  result-AreRecorded name id output =
      let result = safe_tool_value go output in
      unless-AreRecorded (same name [] && same id [] && same result [])
        (result_event name id result) (refl, refl, refl, safe_tool_value-IsSafe go output)

  for_objects-AreRecorded :
      (f : Members → List RecordEvent) (items : Items)
      → ((members : Members) → AreRecorded (f members))
      → AreRecorded (for_objects f items)
  for_objects-AreRecorded f no_item h = none-AreRecorded
  for_objects-AreRecorded f (item null items) h = for_objects-AreRecorded f items h
  for_objects-AreRecorded f (item (boolean b) items) h = for_objects-AreRecorded f items h
  for_objects-AreRecorded f (item (number n) items) h = for_objects-AreRecorded f items h
  for_objects-AreRecorded f (item (text s) items) h = for_objects-AreRecorded f items h
  for_objects-AreRecorded f (item (array l) items) h = for_objects-AreRecorded f items h
  for_objects-AreRecorded f (item (object members) items) h =
      AreRecorded-append (f members) (for_objects f items) (h members)
        (for_objects-AreRecorded f items h)

  for_list-AreRecorded :
      (f : Members → List RecordEvent) (value : Value)
      → ((members : Members) → AreRecorded (f members))
      → AreRecorded (for_list f value)
  for_list-AreRecorded f null h = none-AreRecorded
  for_list-AreRecorded f (boolean b) h = none-AreRecorded
  for_list-AreRecorded f (number n) h = none-AreRecorded
  for_list-AreRecorded f (text s) h = none-AreRecorded
  for_list-AreRecorded f (array items) h = for_objects-AreRecorded f items h
  for_list-AreRecorded f (object members) h = none-AreRecorded

  with_object-AreRecorded :
      (f : Members → List RecordEvent) (value : Value)
      → ((members : Members) → AreRecorded (f members))
      → AreRecorded (with_object f value)
  with_object-AreRecorded f null h = none-AreRecorded
  with_object-AreRecorded f (boolean b) h = none-AreRecorded
  with_object-AreRecorded f (number n) h = none-AreRecorded
  with_object-AreRecorded f (text s) h = none-AreRecorded
  with_object-AreRecorded f (array items) h = none-AreRecorded
  with_object-AreRecorded f (object members) h = h members

  part-AreRecorded :
      (role : List ℕ) (part : Members)
      → is_speaker role ≡ true
      → AreRecorded (content_part go role part)
  part-AreRecorded role part h =
      let kind = string_field part (codes "type") in
      AreRecorded-if (is_text_kind kind) (text_record go role (string_field part (codes "text"))) _
        (λ e. text_record-AreRecorded role _ h)
        (λ e.
          AreRecorded-if (same kind (codes "tool_use")) _ _
            (λ e.
              AreRecorded-if (same role (codes "assistant")) _ [] (λ e. call-AreRecorded _ _ _)
                (λ e. none-AreRecorded))
            (λ e.
              AreRecorded-if (same kind (codes "tool_result") && same role (codes "user")) _ []
                (λ e. result-AreRecorded _ _ _) (λ e. none-AreRecorded)))

  content-AreRecorded :
      (role : List ℕ) (value : Value)
      → is_speaker role ≡ true
      → AreRecorded (content_record_events go role value)
  unfolding content_record_events
  content-AreRecorded role (text value) h = text_record-AreRecorded role value h
  content-AreRecorded role null h = none-AreRecorded
  content-AreRecorded role (boolean b) h = none-AreRecorded
  content-AreRecorded role (number n) h = none-AreRecorded
  content-AreRecorded role (object members) h = none-AreRecorded
  content-AreRecorded role (array items) h =
      for_objects-AreRecorded (content_part go role) items (λ part. part-AreRecorded role part h)

  role-AreRecorded :
      (kind role : List ℕ) (entry : Members) → AreRecorded (role_events go kind role entry)
  role-AreRecorded kind role entry =
      AreRecorded-if (same role (codes "tool")) _ _ (λ e. result-AreRecorded _ _ _)
        (λ e.
          AreRecorded-if (is_silent kind role) [] (message_events go role entry)
            (λ e. none-AreRecorded)
            (λ speaks.
              let speaker : is_speaker role ≡ true = ground (arith, speaks) in
              AreRecorded-append _ _ (content-AreRecorded role _ speaker) (
                AreRecorded-if (same role (codes "assistant")) _ []
                  (λ e.
                    AreRecorded-append _ _
                      (for_list-AreRecorded (call_record go) (at_key entry (codes "tool_calls"))
                        (λ call. call-AreRecorded _ _ _))
                      (with_object-AreRecorded (function_record go)
                        (at_key entry (codes "function_call"))
                        (λ function. call-AreRecorded _ _ _)))
                  (λ e. none-AreRecorded))))

  kind-AreRecorded :
      (kind role : List ℕ) (entry : Members) → AreRecorded (kind_events go kind role entry)
  unfolding kind_events
  kind-AreRecorded kind role entry =
      AreRecorded-if (same kind (codes "reasoning")) [] _ (λ e. none-AreRecorded)
        (λ e.
          AreRecorded-if (is_call_kind kind) _ _ (λ e. call-AreRecorded _ _ _)
            (λ e.
              AreRecorded-if (is_output_kind kind) _ _ (λ e. result-AreRecorded _ _ _)
                (λ e.
                  AreRecorded-if (has_suffix kind (codes "_call")) _ _ (λ e. call-AreRecorded _ _ _)
                    (λ e. role-AreRecorded kind role entry))))

  item-AreRecorded : (entry : Members) → AreRecorded (item_record_events go entry)
  unfolding item_record_events
  item-AreRecorded entry =
      kind-AreRecorded (string_field entry (codes "type")) (string_field entry (codes "role")) entry

  -- A name that is filled in leaves the rest of an event.
  fill-AreRecorded :
      (all events : List RecordEvent) → AreRecorded events → AreRecorded (fill_from all events)
  unfolding fill_from
  fill-AreRecorded all [] h = none-AreRecorded
  fill-AreRecorded all (event ∷ events) h = record {
    each = (h.each.0, (fill-AreRecorded all events record { each = h.each.1 }).each);
  }

  input-AreRecorded : (value : Value) → AreRecorded (input_record_events go value)
  unfolding input_record_events
  input-AreRecorded (text s) = text_record-AreRecorded (codes "user") s refl
  input-AreRecorded (array items) =
      fill-AreRecorded (for_objects (item_record_events go) items) _
        (for_objects-AreRecorded (item_record_events go) items item-AreRecorded)
  input-AreRecorded (object entry) =
      fill-AreRecorded (item_record_events go entry) _ (item-AreRecorded entry)
  input-AreRecorded null = none-AreRecorded
  input-AreRecorded (boolean b) = none-AreRecorded
  input-AreRecorded (number n) = none-AreRecorded

  piece-AreRecorded :
      (role : List ℕ) (piece : Members)
      → is_speaker role ≡ true
      → AreRecorded (gemini_part go role piece)
  piece-AreRecorded role piece h =
      AreRecorded-if (is_true (at_key piece (codes "thought"))) [] _ (λ e. none-AreRecorded)
        (λ e.
          AreRecorded-append _ _
            (AreRecorded-append _ _
              (AreRecorded-if (same (string_field piece (codes "text")) []) [] _
                (λ e. none-AreRecorded) (λ e. text_record-AreRecorded role _ h))
              (AreRecorded-if (same role (codes "assistant")) _ []
                (λ e.
                  with_object-AreRecorded _ (at_key piece (codes "functionCall"))
                    (λ call. call-AreRecorded _ _ _))
                (λ e. none-AreRecorded)))
            (with_object-AreRecorded _ (at_key piece (codes "functionResponse"))
              (λ result. result-AreRecorded _ _ _)))

  gemini-AreRecorded : (value : Value) → AreRecorded (gemini_record_events go value)
  unfolding gemini_record_events
  gemini-AreRecorded value = for_list-AreRecorded (gemini_item go) value (λ entry.
      let role = gemini_role (string_field entry (codes "role")) in
      AreRecorded-if (not (same role (codes "user")) && not (same role (codes "assistant"))) [] _
        (λ e. none-AreRecorded)
        (λ speaks.
          let speaker : is_speaker role ≡ true = ground (arith, speaks) in
          for_list-AreRecorded (gemini_part go role) (at_key entry (codes "parts"))
            (λ piece. piece-AreRecorded role piece speaker)))

  present-AreRecorded :
      (found : Option Value) (f : Value → List RecordEvent) (later : List RecordEvent)
      → ((value : Value) → AreRecorded (f value))
      → AreRecorded later
      → AreRecorded (if_present found f later)
  present-AreRecorded none f later h k = k
  present-AreRecorded (some value) f later h k = h value

  -- Whatever a request holds, what is recorded of it is messages of the user or of the assistant, calls
  -- of tools and results of tools; a call has no more than arguments and a result no more than a
  -- result, and these are empty, the note that media was left out, a text that is no media data, or
  -- the encoding of a value that has neither a text of media data nor anything under a key of media.
  pub request_record_events-AreRecorded :
      (payload : Option Members) → AreRecorded (request_record_events go payload)
  unfolding request_record_events
  request_record_events-AreRecorded none = none-AreRecorded
  request_record_events-AreRecorded (some payload) =
      present-AreRecorded (find (codes "input") payload) _ _ input-AreRecorded (
        present-AreRecorded (find (codes "messages") payload) _ _ input-AreRecorded (
          present-AreRecorded (find (codes "contents") payload) _ _ gemini-AreRecorded
            none-AreRecorded))
