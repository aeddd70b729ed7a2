-- ===== src/Gateway/Identity/Scanner.antt =====
-- internal/gateway/identity_json_stream.go: the scanner that walks through a body's JSON.
pub mod Moves
pub mod Numbers
pub mod Values
use cliproxy_portal.Common.{ℕ, zero, suc, ◌+◌, ◌-◌, Bool, true, ◌&&◌, ◌||◌, Option, none, some, List, [], ◌∷◌, ◌++◌, map, ltb,
  leb, ◌==◌, if◌then◌else◌, length, take, drop, codes}
use cliproxy_portal.Gateway.Identity.{Span, ScanError, end_of_file, read_failed, invalid, out_of_fuel, Result, ok, failed, ◌>>=◌}
use cliproxy_portal.Gateway.Identity.Runes.{Rune, identity_hex, read_runes}
use cliproxy_portal.Gateway.Identity.Text.{section}

-- `rest` is what the buffered reader has not given yet; `broken` says that a read behind the bytes
-- fails otherwise than by the end of the file. The two files of spans are lists.
pub record Scanner : Type 0 where
  pub file : List ℕ
  pub rest : List ℕ
  pub offset : ℕ
  pub broken : Bool
  pub depth : ℕ
  pub candidates : List Span
  pub patches : List Span

abbrev pub Scan : Type 0 → Type 0
Scan A = Scanner → Result (A × Scanner)

-- What a read behind the last byte gives.
abbrev pub ending : Scanner → ScanError
ending s = if s.broken then read_failed else end_of_file

-- The next n bytes are read.
abbrev pub advance : ℕ → Scanner → Scanner
advance n s = record s { rest = drop n s.rest; offset = s.offset + n }

abbrev pub front_byte : List ℕ → ℕ
front_byte [] = 0
front_byte (b ∷ rest) = b

-- `peek` where the caller takes 0 for an error.
abbrev pub next_byte : Scanner → ℕ
next_byte s = front_byte s.rest

abbrev pub first_of : ScanError → List ℕ → Result ℕ
first_of e [] = failed e
first_of e (b ∷ rest) = ok b

unfoldable pub peek : Scan ℕ
peek s = do b ← first_of (ending s) s.rest; ok (b, s)

unfoldable pub read_byte : Scan ℕ
read_byte s = do b ← first_of (ending s) s.rest; ok (b, advance 1 s)

abbrev pub is_white : ℕ → Bool
is_white b = b == 32 || b == 9 || b == 13 || b == 10

-- How many bytes at the front pass a test.
abbrev pub run_length : (ℕ → Bool) → List ℕ → ℕ
run_length test [] = 0
run_length test (b ∷ rest) = let more = run_length test rest in if test b then suc more else 0

-- A read that fails behind the white space is an error here.
abbrev pub unless_broken : Scanner → Result (Unit {0} × Scanner)
unless_broken s = if (length s.rest == 0) && s.broken then failed read_failed else ok (tt, s)

unfoldable pub whitespace : Scan (Unit {0})
whitespace s = unless_broken (advance (run_length is_white s.rest) s)

unfoldable pub expect : ℕ → Scan (Unit {0})
unfolding whitespace read_byte
expect want s = do
  (_, s) ← whitespace s
  (b, s) ← read_byte s
  if b == want then ok (tt, s) else failed invalid

-- Where the scanner of a string stands: in the text, behind a backslash, or with so many digits of
-- an escape to come behind the ones given.
pub data Within : Type 0 where
  plain escaped : Within
  digits_left : ℕ → List ℕ → Within

abbrev is_short_escape : ℕ → Bool
is_short_escape b =
    b == b'"'
    || b == 92
    || b == b'/'
    || b == b'b'
    || b == b'f'
    || b == b'n'
    || b == b'r'
    || b == b't'

-- One byte of a string: its end, an error, or where the scanner stands next.
pub data Turn : Type 0 where
  closes refuses : Turn
  goes : Within → Turn

abbrev if_hex : Option ℕ → Turn
if_hex none = refuses
if_hex (some value) = goes plain

unfoldable pub turn : Within → ℕ → Turn
unfolding identity_hex
turn plain b =
    if b == b'"'
    then closes
    else if ltb b 0x20
    then refuses
    else if b == 92
    then goes escaped
    else goes plain
turn escaped b =
    if is_short_escape b then goes plain else if b == b'u' then goes (digits_left 3 []) else refuses
turn (digits_left zero raw) b = if_hex (identity_hex (raw ++ b ∷ []) (some 0))
turn (digits_left (suc n) raw) b = goes (digits_left n (raw ++ b ∷ []))

-- The number of bytes up to the closing quote and with it.
unfoldable pub string_length : ScanError → Within → List ℕ → Result ℕ
unfolding turn
string_length e w [] = failed e
string_length e w (b ∷ rest) = elim (turn w b) [
  | closes ↦ ok 1
  | refuses ↦ failed invalid
  | goes w' ↦ string_length e w' rest >>= λ n. ok (suc n)
]

unfoldable pub string : Scan Span
unfolding expect string_length
string s = do
  (_, opened) ← whitespace s
  (_, inside) ← expect b'"' opened
  n ← string_length (ending inside) plain inside.rest
  ok (record { start = opened.offset; end = inside.offset + n }, advance n inside)

-- `json.Unmarshal` of a string that the scanner has passed.
abbrev pub unquote : List ℕ → List ℕ
unquote raw =
    map (λ (r : Rune). r.char)
      (read_runes (length raw) true 0 (take (length raw - 2) (drop 1 raw))).items

unfoldable pub short_string : Scanner → Span → ℕ → List ℕ
unfolding read_runes
short_string s span maximum =
    if ltb maximum (span.end - span.start) then [] else unquote (section s.file span.start span.end)

abbrev pub max_depth : ℕ
max_depth = 10000

-- One level deeper and back, or an error where that is too deep.
abbrev pub nested : {A : Type 0} → Scan A → Scan A
nested body s =
    let entered : Scanner = record s { depth = s.depth + 1 } in
    let run = body entered >>= λ (a, t). ok (a, record t { depth = t.depth - 1 }) in
    if ltb max_depth entered.depth then failed invalid else run

-- What ends an object or an array, or what it goes on with.
abbrev closes_with : {A : Type 0} → (close : ℕ) → A → ℕ × Scanner → Scan A → Result (A × Scanner)
closes_with close a (b, s) again =
    if b == close then ok (a, s) else if b == b',' then again s else failed invalid

-- What is done with a member: from its key and the caller's variables on.
abbrev pub Field : Type 0 → Type 0
Field A = List ℕ → A → Scan A

-- The loop over the members of an object. Each takes at least one byte.
unfoldable pub object_loop : {A : Type 0} → ℕ → Field A → A → Scan A
unfolding string short_string
object_loop zero field a s = failed out_of_fuel
object_loop (suc fuel) field a s = do
  (key, s) ← string s
  (_, s) ← expect b':' s
  (_, s) ← whitespace s
  (a, s) ← field (short_string s key 128) a s
  (_, s) ← whitespace s
  last ← read_byte s
  closes_with b'}' a last (object_loop fuel field a)

-- The braces and what is between them.
abbrev pub object_body : {A : Type 0} → Field A → A → Scan A
object_body field a s = do
  (_, s) ← expect b'{' s
  (_, s) ← whitespace s
  if next_byte s == b'}' then ok (a, advance 1 s) else object_loop (length s.rest + 1) field a s

unfoldable pub object : {A : Type 0} → Field A → A → Scan A
unfolding object_loop
object field a = nested (object_body field a)

unfoldable pub array_loop : ℕ → Scan (Unit {0}) → Scan (Unit {0})
unfolding whitespace read_byte
array_loop zero value s = failed out_of_fuel
array_loop (suc fuel) value s = do
  (_, s) ← whitespace s
  (_, s) ← value s
  (_, s) ← whitespace s
  last ← read_byte s
  closes_with b']' tt last (array_loop fuel value)

abbrev pub array_body : Scan (Unit {0}) → Scan (Unit {0})
array_body value s = do
  (_, s) ← expect b'[' s
  (_, s) ← whitespace s
  if next_byte s == b']' then ok (tt, advance 1 s) else array_loop (length s.rest + 1) value s

unfoldable pub array : Scan (Unit {0}) → Scan (Unit {0})
unfolding array_loop expect
array value = nested (array_body value)

abbrev pub is_digit : ℕ → Bool
is_digit b = leb b'0' b && leb b b'9'

-- Whether there were digits, and the scanner behind them.
unfoldable pub digits : Scanner → Bool × Scanner
digits s = let n = run_length is_digit s.rest in (ltb 0 n, advance n s)

abbrev pub accept_byte : (ℕ → Bool) → Scanner → Scanner
accept_byte test s = if test (next_byte s) then advance 1 s else s

abbrev pub need_digits : Scan (Unit {0})
need_digits s = let (found, t) = digits s in if found then ok (tt, t) else failed invalid

unfoldable pub whole_part : ℕ → Scan (Unit {0})
unfolding digits
whole_part b s =
    if b == b'0'
    then ok (tt, advance 1 s)
    else if leb b'1' b && leb b b'9'
    then ok (tt, (digits s).1)
    else failed invalid

unfoldable pub fraction : Scan (Unit {0})
unfolding digits
fraction s = if next_byte s == b'.' then need_digits (advance 1 s) else ok (tt, s)

abbrev pub is_sign : ℕ → Bool
is_sign b = b == b'+' || b == b'-'

unfoldable pub exponent : Scan (Unit {0})
unfolding digits
exponent s =
    if next_byte s == b'e' || next_byte s == b'E'
    then need_digits (accept_byte is_sign (advance 1 s))
    else ok (tt, s)

abbrev pub is_minus : ℕ → Bool
is_minus b = b == b'-'

unfoldable pub number : Scan (Unit {0})
unfolding whole_part fraction exponent peek
number s = do
  (b, s) ← peek (accept_byte is_minus s)
  (_, s) ← whole_part b s
  (_, s) ← fraction s
  exponent s

unfoldable pub word : List ℕ → Scan (Unit {0})
unfolding read_byte
word [] s = ok (tt, s)
word (w ∷ ws) s = do (b, s) ← read_byte s; if b == w then word ws s else failed invalid

abbrev pub word_at : ℕ → List ℕ
word_at b = if b == b't' then codes "true" else if b == b'f' then codes "false" else codes "null"

unfoldable pub skip_leaf : ℕ → Scan (Unit {0})
unfolding word number
skip_leaf b s =
    if b == b'"'
    then (string s >>= λ (span, t). ok (tt, t))
    else if b == b't' || b == b'f' || b == b'n'
    then word (word_at b) s
    else number s

-- A value, given what skips an object and an array.
unfoldable pub skip_value : Scan (Unit {0}) → Scan (Unit {0}) → Scan (Unit {0})
unfolding skip_leaf
skip_value skip_object skip_array s = do
  (_, s) ← whitespace s
  (b, s) ← peek s
  if b == b'{' then skip_object s else if b == b'[' then skip_array s else skip_leaf b s

-- `skip` by the levels of nesting that are left.
unfoldable pub skip_levels : ℕ → Scan (Unit {0})
unfolding object array skip_value
skip_levels zero s = skip_value (λ t. failed out_of_fuel) (λ t. failed out_of_fuel) s
skip_levels (suc left) s =
    skip_value (object (λ key a. skip_levels left) tt) (array (skip_levels left)) s

unfoldable pub skip : Scan (Unit {0})
unfolding skip_levels
skip s = skip_levels (max_depth + 1 - s.depth) s

unfoldable metadata_at : ℕ → ℕ → Scan (List ℕ)
unfolding skip
metadata_at maximum b s =
    if b == b'"'
    then (string s >>= λ (span, t). ok (short_string t span maximum, t))
    else (skip s >>= λ (_, t). ok ([], t))

unfoldable pub metadata : ℕ → Scan (List ℕ)
unfolding metadata_at
metadata maximum s = do (_, s) ← whitespace s; (b, s) ← peek s; metadata_at maximum b s
