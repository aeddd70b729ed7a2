-- ===== src/Gateway/Identity/Runes/Reads.antt =====
-- internal/gateway/identity_text_stream.go: a rune that is read takes a byte at least.
use cliproxy_portal.Common.{
  ℕ, zero, suc, ◌+◌, ◌≤◌, ◌<◌, Bool, true, false, Option, none, some, List, [], ◌∷◌, arith, ◌==◌,
  if◌then◌else◌, drop, All,
}
use cliproxy_portal.Gateway.Identity.{bad_text, Own}
use cliproxy_portal.Gateway.Identity.Runes.{
  Rune, Runes, Reading, got, stopped, decode_rune, two_bytes, three_bytes, four_bytes, escape,
  escape_with, unicode_escape, escaped_unit, join_halves, alone, low_half, read_escape, read_rune,
  read_runes, with_reading, identity_hex, is_high, is_low,
}

two_bytes-pos : (a : ℕ) (l : List ℕ) → 1 ≤ (two_bytes a l).1
unfolding two_bytes
two_bytes-pos a [] = omega arith
two_bytes-pos a (b ∷ l) = ground arith

three_bytes-pos : (low high a : ℕ) (l : List ℕ) → 1 ≤ (three_bytes low high a l).1
unfolding three_bytes
three_bytes-pos low high a [] = omega arith
three_bytes-pos low high a (b ∷ []) = omega arith
three_bytes-pos low high a (b ∷ c ∷ l) = ground arith

four_bytes-pos : (low high a : ℕ) (l : List ℕ) → 1 ≤ (four_bytes low high a l).1
unfolding four_bytes
four_bytes-pos low high a [] = omega arith
four_bytes-pos low high a (b ∷ []) = omega arith
four_bytes-pos low high a (b ∷ c ∷ []) = omega arith
four_bytes-pos low high a (b ∷ c ∷ d ∷ l) = ground arith

decode_rune-pos : (a : ℕ) (l : List ℕ) → 1 ≤ (decode_rune a l).1
unfolding decode_rune
decode_rune-pos a l = ground (
  arith,
  two_bytes-pos a l,
  three_bytes-pos (if a == 0xe0 then 0xa0 else 0x80) (if a == 0xed then 0x9f else 0xbf) a l,
  four_bytes-pos (if a == 0xf0 then 0x90 else 0x80) (if a == 0xf4 then 0x8f else 0xbf) a l,
)

-- A reading takes a byte at least, or stops for a reason of the text's.
abbrev Reads : Reading → Type 0
Reads (got char size used) = 1 ≤ used
Reads (stopped e) = Own false e

Reads-if : (b : Bool) (r q : Reading) → Reads r → Reads q → Reads (if b then r else q)
Reads-if true r q h k = h
Reads-if false r q h k = k

alone-Reads : (char used : ℕ) → 1 ≤ used → Reads (alone char used)
alone-Reads char used h = Reads-if _ (got _ _ used) (got _ _ used) h h

join_halves-Reads : (high : ℕ) (o : Option ℕ) → Reads (join_halves high o)
join_halves-Reads high none = alone-Reads high 6 (omega arith)
join_halves-Reads high (some low) =
    Reads-if (is_low low) (got _ _ 12) (alone high 6) (omega arith)
      (alone-Reads high 6 (omega arith))

escaped_unit-Reads : (o : Option ℕ) (l : List ℕ) → Reads (escaped_unit o l)
escaped_unit-Reads none l = tt
escaped_unit-Reads (some char) l =
    Reads-if (is_high char) (join_halves char (low_half l)) (alone char 6)
      (join_halves-Reads char (low_half l)) (alone-Reads char 6 (omega arith))

unicode_escape-Reads : (l : List ℕ) → Reads (unicode_escape l)
unicode_escape-Reads [] = tt
unicode_escape-Reads (a ∷ []) = tt
unicode_escape-Reads (a ∷ b ∷ []) = tt
unicode_escape-Reads (a ∷ b ∷ c ∷ []) = tt
unicode_escape-Reads (a ∷ b ∷ c ∷ d ∷ l) =
    escaped_unit-Reads (identity_hex (a ∷ b ∷ c ∷ d ∷ []) (some 0)) l

escape_with-Reads : (o : Option ℕ) (b : ℕ) (l : List ℕ) → Reads (escape_with o b l)
escape_with-Reads (some char) b l = omega arith
escape_with-Reads none b l =
    Reads-if (b == b'u') (unicode_escape l) (stopped bad_text) (unicode_escape-Reads l) tt

escape-Reads : (b : ℕ) (l : List ℕ) → Reads (escape b l)
unfolding escape
escape-Reads b l = escape_with-Reads _ b l

read_escape-Reads : (l : List ℕ) → Reads (read_escape l)
read_escape-Reads [] = tt
read_escape-Reads (b ∷ l) = escape-Reads b l

read_rune-Reads : (escaped : Bool) (b : ℕ) (l : List ℕ) → Reads (read_rune escaped b l)
unfolding read_rune
read_rune-Reads escaped b l =
    let used = decode_rune-pos b l in
    Reads-if escaped _ (got (decode_rune b l).0 (decode_rune b l).1 (decode_rune b l).1)
      (Reads-if ((decode_rune b l).0 == 92) (read_escape l) (got _ _ (decode_rune b l).1)
        (read_escape-Reads l) used)
      used

-- The runes of a list end behind the place where the list begins.
pub record Follows (at : ℕ) (rs : Runes) : Type 0 where
  pub behind : All (λ (r : Rune). at < r.end) rs.items
  pub halting : Own false rs.ending

All-weaken :
    (at next : ℕ) (items : List Rune)
    → at ≤ next
    → All (λ (r : Rune). next < r.end) items
    → All (λ (r : Rune). at < r.end) items
All-weaken at next [] le h = tt
All-weaken at next (r ∷ items) le h = (omega (arith, le, h.0), All-weaken at next items le h.1)

with_reading-Follows :
    (r : Reading) (at : ℕ) (later : ℕ → Runes)
    → Reads r
    → ((used : ℕ) → Follows (at + used) (later used))
    → Follows at (with_reading r at later)
with_reading-Follows (stopped e) at later h k = record { behind = tt; halting = h }
with_reading-Follows (got char size used) at later h k = record {
  behind = (
    omega (arith, h),
    All-weaken at (at + used) (later used).items (omega arith) (k used).behind,
  );
  halting = (k used).halting;
}

pub read_runes-Follows :
    (fuel : ℕ) (escaped : Bool) (at : ℕ) (l : List ℕ) → Follows at (read_runes fuel escaped at l)
unfolding read_runes
read_runes-Follows fuel escaped at [] = record { behind = tt; halting = tt }
read_runes-Follows zero escaped at (b ∷ l) = record { behind = tt; halting = tt }
read_runes-Follows (suc fuel) escaped at (b ∷ l) =
    with_reading-Follows (read_rune escaped b l) at _ (read_rune-Reads escaped b l)
      (λ used. read_runes-Follows fuel escaped (at + used) (drop used (b ∷ l)))
