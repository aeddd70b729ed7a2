-- ===== src/Gateway/Identity/Runes.antt =====
-- internal/gateway/identity_text_stream.go: the runes of a text, raw or inside a JSON string. A
-- reader is the list of the runes that it gives and the error that ends them.
pub mod Reads
use cliproxy_portal.Common.{
  ℕ, zero, suc, ◌+◌, ◌-◌, ◌*◌, Bool, ◌&&◌, ◌||◌, Option, none, some, List, [], ◌∷◌, ltb, leb, ◌==◌,
  if◌then◌else◌, drop,
}
use cliproxy_portal.Gateway.Identity.{ScanError, end_of_file, unexpected_end, bad_text}

abbrev pub within : ℕ → ℕ → ℕ → Bool
within low high b = leb low b && leb b high

-- The replacement character.
abbrev pub rune_error : ℕ
rune_error = 0xfffd

-- A character and the bytes that it takes.
abbrev pub Decoded : Type 0
Decoded = ℕ × ℕ

-- `utf8.DecodeRune`: a byte that begins no character is read alone, as the replacement character.
unfoldable pub two_bytes : ℕ → List ℕ → Decoded
two_bytes a [] = (rune_error, 1)
two_bytes a (b ∷ rest) =
    if within 0x80 0xbf b then ((a - 0xc0) * 64 + (b - 0x80), 2) else (rune_error, 1)

unfoldable pub three_bytes : (low high : ℕ) → ℕ → List ℕ → Decoded
three_bytes low high a [] = (rune_error, 1)
three_bytes low high a (b ∷ []) = (rune_error, 1)
three_bytes low high a (b ∷ c ∷ rest) =
    if within low high b && within 0x80 0xbf c
    then (((a - 0xe0) * 64 + (b - 0x80)) * 64 + (c - 0x80), 3)
    else (rune_error, 1)

unfoldable pub four_bytes : (low high : ℕ) → ℕ → List ℕ → Decoded
four_bytes low high a [] = (rune_error, 1)
four_bytes low high a (b ∷ []) = (rune_error, 1)
four_bytes low high a (b ∷ c ∷ []) = (rune_error, 1)
four_bytes low high a (b ∷ c ∷ d ∷ rest) =
    if within low high b && within 0x80 0xbf c && within 0x80 0xbf d
    then ((((a - 0xf0) * 64 + (b - 0x80)) * 64 + (c - 0x80)) * 64 + (d - 0x80), 4)
    else (rune_error, 1)

unfoldable pub decode_rune : ℕ → List ℕ → Decoded
unfolding two_bytes three_bytes four_bytes
decode_rune a rest =
    if ltb a 0x80
    then (a, 1)
    else if within 0xc2 0xdf a
    then two_bytes a rest
    else if within 0xe0 0xef a
    then three_bytes (if a == 0xe0 then 0xa0 else 0x80) (if a == 0xed then 0x9f else 0xbf) a rest
    else if within 0xf0 0xf4 a
    then four_bytes (if a == 0xf0 then 0x90 else 0x80) (if a == 0xf4 then 0x8f else 0xbf) a rest
    else (rune_error, 1)

-- `utf8.RuneLen` of a character that is no surrogate.
abbrev pub rune_len : ℕ → ℕ
rune_len c = if ltb c 0x80 then 1 else if ltb c 0x800 then 2 else if ltb c 0x10000 then 3 else 4

abbrev hex_digit : ℕ → Option ℕ
hex_digit b =
    if within b'0' b'9' b
    then some (b - b'0')
    else if within b'a' b'f' b
    then some (b - b'a' + 10)
    else if within b'A' b'F' b
    then some (b - b'A' + 10)
    else none

-- One digit more, behind those read.
abbrev add_digit : Option ℕ → ℕ → Option ℕ
add_digit none value = none
add_digit (some d) value = some (value * 16 + d)

unfoldable pub identity_hex : List ℕ → Option ℕ → Option ℕ
identity_hex [] value = value
identity_hex (b ∷ raw) none = none
identity_hex (b ∷ raw) (some value) = identity_hex raw (add_digit (hex_digit b) value)

pub record Rune : Type 0 where
  pub char : ℕ
  pub size : ℕ
  pub start : ℕ
  pub end : ℕ

-- One reading: a character, its length and the bytes that it took, or an error.
pub data Reading : Type 0 where
  got : (char size used : ℕ) → Reading
  stopped : ScanError → Reading

unfoldable pub is_high : ℕ → Bool
is_high c = within 0xd800 0xdbff c

unfoldable pub is_low : ℕ → Bool
is_low c = within 0xdc00 0xdfff c

-- A low half in the six bytes that follow a high half, if there is one.
abbrev pub low_half : List ℕ → Option ℕ
low_half (b ∷ u ∷ a ∷ c ∷ d ∷ e ∷ rest) =
    if (b == 92) && (u == b'u') then identity_hex (a ∷ c ∷ d ∷ e ∷ []) (some 0) else none
low_half _ = none

-- A half that stands alone is replaced.
abbrev pub alone : ℕ → ℕ → Reading
alone char used =
    if within 0xd800 0xdfff char
    then got rune_error (rune_len rune_error) used
    else got char (rune_len char) used

abbrev pub join_halves : ℕ → Option ℕ → Reading
join_halves high none = alone high 6
join_halves high (some low) =
    if is_low low
    then (let char = (high - 0xd800) * 1024 + (low - 0xdc00) + 0x10000 in
        got char (rune_len char) 12)
    else alone high 6

abbrev pub escaped_unit : Option ℕ → List ℕ → Reading
escaped_unit none rest = stopped bad_text
escaped_unit (some char) rest =
    if is_high char then join_halves char (low_half rest) else alone char 6

-- Behind `\u`: four digits, and what follows them.
abbrev pub unicode_escape : List ℕ → Reading
unicode_escape (a ∷ b ∷ c ∷ d ∷ rest) =
    escaped_unit (identity_hex (a ∷ b ∷ c ∷ d ∷ []) (some 0)) rest
unicode_escape [] = stopped end_of_file
unicode_escape _ = stopped unexpected_end

-- The escapes of one character.
simple_escape : ℕ → Option ℕ
simple_escape b =
    if b == 34 || b == 92 || b == b'/'
    then some b
    else if b == b'b'
    then some 8
    else if b == b'f'
    then some 12
    else if b == b'n'
    then some 10
    else if b == b'r'
    then some 13
    else if b == b't'
    then some 9
    else none

abbrev pub escape_with : Option ℕ → ℕ → List ℕ → Reading
escape_with (some char) b rest = got char 1 2
escape_with none b rest = if b == b'u' then unicode_escape rest else stopped bad_text

unfoldable pub escape : ℕ → List ℕ → Reading
unfolding is_high is_low identity_hex simple_escape
escape b rest = escape_with (simple_escape b) b rest

abbrev pub read_escape : List ℕ → Reading
read_escape [] = stopped end_of_file
read_escape (b ∷ rest) = escape b rest

-- `identityRunes.read`, on a byte and those behind it.
unfoldable pub read_rune : Bool → ℕ → List ℕ → Reading
unfolding decode_rune escape
read_rune escaped b rest =
    let decoded = decode_rune b rest in
    if escaped
    then if decoded.0 == 92 then read_escape rest else got decoded.0 (rune_len decoded.0) decoded.1
    else got decoded.0 decoded.1 decoded.1

-- What a reader will give, and how it ends.
pub record Runes : Type 0 where
  pub items : List Rune
  pub ending : ScanError

abbrev put_rune : Rune → Runes → Runes
put_rune r rs = record rs { items = r ∷ rs.items }

-- The rune that was read, and the runes behind it.
abbrev pub with_reading : Reading → ℕ → (ℕ → Runes) → Runes
with_reading (stopped e) at later = record { items = []; ending = e }
with_reading (got char size used) at later =
    put_rune record { char = char; size = size; start = at; end = at + used } (later used)

-- The readings of a list from a position on, with as much fuel as there are bytes.
unfoldable pub read_runes : ℕ → Bool → ℕ → List ℕ → Runes
unfolding read_rune
read_runes fuel escaped at [] = record { items = []; ending = end_of_file }
read_runes zero escaped at (b ∷ rest) = record { items = []; ending = end_of_file }
read_runes (suc fuel) escaped at (b ∷ rest) =
    with_reading (read_rune escaped b rest) at
      (λ used. read_runes fuel escaped (at + used) (drop used (b ∷ rest)))
