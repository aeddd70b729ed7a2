-- ===== src/Gateway/Structured/Clean.antt =====
-- internal/gateway/structured.go: what `scrubMedia` and `safeToolValue` leave of a value.
use cliproxy_portal.Common.{ℕ, ◌≡◌, refl, ◌⊎◌, inl, inr, Bool, true, false, List, [], if◌then◌else◌}
use cliproxy_portal.Gateway.Structured.{
  Value, null, boolean, number, text, array, object, Items, no_item, item, Members, no_member,
  member, Strings, omitted, media_data, is_media_key, scrub_media, scrub_items, scrub_members,
  safe_tool_value,
}

module _ (go : Strings) where
  -- No text is media data, and under a key of media there is only the note of the omission.
  abbrev mutual
    pub IsClean : Value → Type 0
    IsClean (text s) = (s ≡ omitted) ⊎ (media_data go s ≡ false)
    IsClean (array items) = AreClean items
    IsClean (object members) = HasClean members
    IsClean null = Unit {0}
    IsClean (boolean b) = Unit {0}
    IsClean (number n) = Unit {0}

    pub AreClean : Items → Type 0
    AreClean no_item = Unit {0}
    AreClean (item value items) = IsClean value × AreClean items

    pub HasClean : Members → Type 0
    HasClean no_member = Unit {0}
    HasClean (member key value members) =
        (is_media_key (go.to_lower key) ≡ true → value ≡ text omitted)
        × IsClean value
        × HasClean members

  IsClean-if :
      (test : Bool) (v w : Value)
      → (test ≡ true → IsClean v)
      → (test ≡ false → IsClean w)
      → IsClean (if test then v else w)
  IsClean-if true v w h k = h refl
  IsClean-if false v w h k = k refl

  HasClean-if :
      (test : Bool) (key : List ℕ) (value : Value) (members : Members)
      → is_media_key (go.to_lower key) ≡ test
      → IsClean value
      → HasClean members
      → HasClean (if test then member key (text omitted) members else member key value members)
  HasClean-if true key value members e h k = ((λ q. refl), inl refl, k)
  HasClean-if false key value members e h k = ((λ q. cc), h, k)

  mutual
    unfolding scrub_media

    scrub_media-IsClean : (value : Value) → IsClean (scrub_media go value)
    scrub_media-IsClean (text s) =
        IsClean-if (media_data go s) (text omitted) (text s) (λ e. inl refl) (λ e. inr e)
    scrub_media-IsClean (array items) = scrub_items-AreClean items
    scrub_media-IsClean (object members) =
        IsClean-if _ (text omitted) (object (scrub_members go members)) (λ e. inl refl)
          (λ e. scrub_members-HasClean members)
    scrub_media-IsClean null = tt
    scrub_media-IsClean (boolean b) = tt
    scrub_media-IsClean (number n) = tt

    scrub_items-AreClean : (items : Items) → AreClean (scrub_items go items)
    scrub_items-AreClean no_item = tt
    scrub_items-AreClean (item value items) =
        (scrub_media-IsClean value, scrub_items-AreClean items)

    scrub_members-HasClean : (members : Members) → HasClean (scrub_members go members)
    scrub_members-HasClean no_member = tt
    scrub_members-HasClean (member key value members) =
        HasClean-if (is_media_key (go.to_lower key)) key (scrub_media go value)
          (scrub_members go members) refl (scrub_media-IsClean value)
          (scrub_members-HasClean members)

  -- What may be recorded of a tool's arguments or result: nothing, the note of an omission, a text
  -- that is no media data, or the encoding of a value without media.
  pub data IsSafe (s : List ℕ) : Type 0 where
    empty : s ≡ [] → IsSafe s
    noted : s ≡ omitted → IsSafe s
    plain : media_data go s ≡ false → IsSafe s
    encoded : (value : Value) → IsClean value → s ≡ go.marshal value → IsSafe s

  IsSafe-if :
      (test : Bool) (s : List ℕ) → media_data go s ≡ test → IsSafe (if test then omitted else s)
  IsSafe-if true s e = noted refl
  IsSafe-if false s e = plain e

  pub safe_tool_value-IsSafe : (value : Value) → IsSafe (safe_tool_value go value)
  unfolding safe_tool_value
  safe_tool_value-IsSafe null = empty refl
  safe_tool_value-IsSafe (text s) = IsSafe-if (media_data go s) s refl
  safe_tool_value-IsSafe (boolean b) = encoded (boolean b) tt refl
  safe_tool_value-IsSafe (number n) = encoded (number n) tt refl
  safe_tool_value-IsSafe (array items) =
      encoded (scrub_media go (array items)) (scrub_media-IsClean (array items)) refl
  safe_tool_value-IsSafe (object members) =
      encoded (scrub_media go (object members)) (scrub_media-IsClean (object members)) refl
