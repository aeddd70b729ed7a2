-- ===== src/Gateway/Structured.antt =====
-- internal/gateway/structured.go: what is recorded of a request or of a response that is one JSON
-- document. A JSON object is the list of its members, in the order in which Go runs through the map;
-- strings.ToLower, strings.TrimSpace and json.Marshal are a parameter.
pub mod Requests
pub mod Clean
pub mod Recorded
pub mod Private
mod Tests
use cliproxy_portal.Common.{ℕ, Bool, ◌&&◌, ◌||◌, Option, none, some, List, [], ◌∷◌, if◌then◌else◌, codes, same}
use cliproxy_portal.Gateway.Identity.Patches.{has_prefix}

mutual
  pub data Value : Type 0 where
    null : Value
    boolean : Bool → Value
    number : List ℕ → Value
    text : List ℕ → Value
    array : Items → Value
    object : Members → Value

  pub data Items : Type 0 where
    no_item : Items
    item : Value → Items → Items

  pub data Members : Type 0 where
    no_member : Members
    member : List ℕ → Value → Members → Members

pub record Strings : Type 0 where
  pub to_lower : List ℕ → List ℕ
  pub trim_space : List ℕ → List ℕ
  pub marshal : Value → List ℕ

pub data RecordType : Type 0 where
  message tool_call tool_result : RecordType

pub record RecordEvent : Type 0 where
  pub type : RecordType
  pub role : List ℕ
  pub content : List ℕ
  pub tool_name : List ℕ
  pub tool_call_id : List ℕ
  pub arguments : List ℕ
  pub result : List ℕ

abbrev pub find : List ℕ → Members → Option Value
find key no_member = none
find key (member name value members) =
    let later = find key members in if same name key then some value else later

-- What a map gives for a key, nil where there is none.
abbrev pub or_null : Option Value → Value
or_null none = null
or_null (some value) = value

abbrev pub at_key : Members → List ℕ → Value
at_key members key = or_null (find key members)

abbrev pub as_text : Value → List ℕ
as_text (text s) = s
as_text _ = []

abbrev pub string_field : Members → List ℕ → List ℕ
string_field members key = as_text (at_key members key)

abbrev pub first_value : Members → List (List ℕ) → Value
first_value members [] = null
first_value members (key ∷ keys) = elim (find key members) [
  | none ↦ first_value members keys
  | some value ↦ value
]

abbrev pub contains : List ℕ → List ℕ → Bool
contains [] part = has_prefix part []
contains (c ∷ s) part = has_prefix part (c ∷ s) || contains s part

-- "[非文本内容已省略]"
abbrev pub omitted : List ℕ
omitted = codes "[非文本内容已省略]"

abbrev pub is_media_key : List ℕ → Bool
is_media_key key =
    same key (codes "b64_json")
    || same key (codes "base64")
    || same key (codes "inline_data")
    || same key (codes "inlinedata")
    || same key (codes "file_data")
    || same key (codes "filedata")
    || same key (codes "image_url")
    || same key (codes "audio")
    || same key (codes "image")
    || same key (codes "video")
    || same key (codes "bytes")

abbrev pub is_media_kind : List ℕ → Bool
is_media_kind kind =
    same kind (codes "base64")
    || contains kind (codes "image")
    || contains kind (codes "audio")
    || contains kind (codes "video")

abbrev pub message_event : (role value : List ℕ) → RecordEvent
message_event role value = record {
  type = message;
  role = role;
  content = value;
  tool_name = [];
  tool_call_id = [];
  arguments = [];
  result = [];
}

abbrev pub call_event : (name id arguments : List ℕ) → RecordEvent
call_event name id arguments = record {
  type = tool_call;
  role = codes "assistant";
  content = [];
  tool_name = name;
  tool_call_id = id;
  arguments = arguments;
  result = [];
}

abbrev pub result_event : (name id result : List ℕ) → RecordEvent
result_event name id result = record {
  type = tool_result;
  role = codes "tool";
  content = [];
  tool_name = name;
  tool_call_id = id;
  arguments = [];
  result = result;
}

module _ (go : Strings) where
  unfoldable pub media_data : List ℕ → Bool
  media_data value =
      let lower = go.to_lower (go.trim_space value) in
      has_prefix (codes "data:image/") lower
      || has_prefix (codes "data:audio/") lower
      || has_prefix (codes "data:video/") lower

  unfoldable mutual
    pub scrub_media : Value → Value
    scrub_media (text s) = if media_data s then text omitted else text s
    scrub_media (array items) = array (scrub_items items)
    scrub_media (object members) =
        let rest = scrub_members members in
        if is_media_kind (go.to_lower (string_field members (codes "type")))
        then text omitted
        else object rest
    scrub_media null = null
    scrub_media (boolean b) = boolean b
    scrub_media (number n) = number n

    pub scrub_items : Items → Items
    scrub_items no_item = no_item
    scrub_items (item value items) = item (scrub_media value) (scrub_items items)

    pub scrub_members : Members → Members
    scrub_members no_member = no_member
    scrub_members (member key value members) =
        let scrubbed = scrub_media value in
        let rest = scrub_members members in
        if is_media_key (go.to_lower key)
        then member key (text omitted) rest
        else member key scrubbed rest

  -- What is recorded of the arguments and of the result of a tool.
  unfoldable pub safe_tool_value : Value → List ℕ
  unfolding media_data scrub_media
  safe_tool_value null = []
  safe_tool_value (text s) = if media_data s then omitted else s
  safe_tool_value value = go.marshal (scrub_media value)

  unfoldable pub text_record : (role value : List ℕ) → List RecordEvent
  text_record role value =
      if same (go.trim_space value) [] then [] else message_event role value ∷ []

  unfoldable pub tool_call_record : (name id : List ℕ) → Value → List RecordEvent
  unfolding safe_tool_value
  tool_call_record name id args =
      let arguments = safe_tool_value args in
      if same name [] && same id [] && same arguments []
      then []
      else call_event name id arguments ∷ []

  unfoldable pub tool_result_record : (name id : List ℕ) → Value → List RecordEvent
  unfolding safe_tool_value
  tool_result_record name id output =
      let result = safe_tool_value output in
      if same name [] && same id [] && same result [] then [] else result_event name id result ∷ []
