-- ===== src/Gateway/Structured/Private.antt =====
-- internal/gateway/structured.go: the instructions of a system or a developer and the reasoning of a
-- model leave no trace in what is recorded.
use cliproxy_portal.Common.{ℕ, ◌≡◌, refl, ap, ◌⊎◌, inl, inr, Bool, true, false, ◌&&◌, ◌||◌, List, [], ◌++◌, if◌then◌else◌, Bool-cases, codes, same, same-eq}
use cliproxy_portal.Gateway.Structured.{null, boolean, number, text, array, object, Items, no_item, item, Members, Strings, RecordEvent, string_field}
use cliproxy_portal.Gateway.Structured.Requests.{for_objects, fill_tool_names, kind_events, item_record_events, input_record_events}

-- Reasoning, or a message of the system or of a developer.
abbrev pub is_hidden : (kind role : List ℕ) → Bool
is_hidden kind role =
    same kind (codes "reasoning")
    || ((same role (codes "system") || same role (codes "developer"))
        && (same kind [] || same kind (codes "message")))

abbrev pub is_private : Members → Bool
is_private entry = is_hidden (string_field entry (codes "type")) (string_field entry (codes "role"))

abbrev pub without_private : Items → Items
without_private no_item = no_item
without_private (item (object entry) items) =
    let rest = without_private items in if is_private entry then rest else item (object entry) rest
without_private (item value items) = item value (without_private items)

or_cases : (a b : Bool) → (a || b) ≡ true → (a ≡ true) ⊎ (b ≡ true)
or_cases true b h = inl refl
or_cases false b h = inr h

and_both : (a b : Bool) → (a && b) ≡ true → (a ≡ true) × (b ≡ true)
and_both true b h = (refl, h)
and_both false b h = cc

module _ (go : Strings) where
  reasoning-empty :
      (role : List ℕ) (entry : Members) → kind_events go (codes "reasoning") role entry ≡ []
  unfolding kind_events
  reasoning-empty role entry = refl

  system-empty : (entry : Members) → kind_events go [] (codes "system") entry ≡ []
  unfolding kind_events
  system-empty entry = refl

  system_message-empty :
      (entry : Members) → kind_events go (codes "message") (codes "system") entry ≡ []
  unfolding kind_events
  system_message-empty entry = refl

  developer-empty : (entry : Members) → kind_events go [] (codes "developer") entry ≡ []
  unfolding kind_events
  developer-empty entry = refl

  developer_message-empty :
      (entry : Members) → kind_events go (codes "message") (codes "developer") entry ≡ []
  unfolding kind_events
  developer_message-empty entry = refl

  role-empty :
      (kind role : List ℕ) (entry : Members)
      → (same role (codes "system") ≡ true) ⊎ (same role (codes "developer") ≡ true)
      → (same kind [] ≡ true) ⊎ (same kind (codes "message") ≡ true)
      → kind_events go kind role entry ≡ []
  role-empty kind role entry (inl r) (inl k) =
      rw (same-eq role _ r, same-eq kind _ k) (system-empty entry)
  role-empty kind role entry (inl r) (inr k) =
      rw (same-eq role _ r, same-eq kind _ k) (system_message-empty entry)
  role-empty kind role entry (inr r) (inl k) =
      rw (same-eq role _ r, same-eq kind _ k) (developer-empty entry)
  role-empty kind role entry (inr r) (inr k) =
      rw (same-eq role _ r, same-eq kind _ k) (developer_message-empty entry)

  hidden-empty :
      (kind role : List ℕ) (entry : Members)
      → is_hidden kind role ≡ true
      → kind_events go kind role entry ≡ []
  hidden-empty kind role entry h = elim (or_cases (same kind (codes "reasoning")) _ h) [
    | inl e ↦ rw (same-eq kind _ e) (reasoning-empty role entry)
    | inr e ↦
        let (r, k) = and_both (same role (codes "system") || same role (codes "developer")) _ e in
        role-empty kind role entry (or_cases (same role (codes "system")) _ r)
          (or_cases (same kind []) _ k)
  ]

  private-empty : (entry : Members) → is_private entry ≡ true → item_record_events go entry ≡ []
  unfolding item_record_events
  private-empty entry h =
      hidden-empty (string_field entry (codes "type")) (string_field entry (codes "role")) entry h

  objects-without :
      (items : Items)
      → for_objects (item_record_events go) items
        ≡ for_objects (item_record_events go) (without_private items)
  objects-without no_item = refl
  objects-without (item null items) = objects-without items
  objects-without (item (boolean b) items) = objects-without items
  objects-without (item (number n) items) = objects-without items
  objects-without (item (text s) items) = objects-without items
  objects-without (item (array l) items) = objects-without items
  objects-without (item (object entry) items) = elim (Bool-cases (is_private entry)) [
    | inl e ↦ rw (e, private-empty entry e) (objects-without items)
    | inr e ↦
        rw e
          (ap (λ (l : List RecordEvent). item_record_events go entry ++ l) (objects-without items))
  ]

  -- What is recorded of a list of items is what is recorded of it without its reasoning and without
  -- the messages of the system and of developers: whatever these hold, it leaves no trace.
  pub input_record_events-without_private :
      (items : Items)
      → input_record_events go (array items)
        ≡ input_record_events go (array (without_private items))
  unfolding input_record_events
  input_record_events-without_private items = ap fill_tool_names (objects-without items)
