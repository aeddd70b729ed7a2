-- ===== src/Gateway/Body.antt =====
-- internal/gateway/resource_control.go: `prepareResourceBody` and `observedResourceBody`, which
-- bound a request's body on the wire and after each decoding. The decoders are third-party or
-- standard packages and so a parameter; a file is the list of its bytes.
pub mod Limits
pub mod Observed
use cliproxy_portal.Common.{
  ℕ, ◌+◌, Bool, true, false, not, ◌&&◌, ◌||◌, Option, none, some, List, [], ◌∷◌, ◌++◌, map, ltb,
  leb, ◌==◌, if◌then◌else◌, length, take,
}

-- What can be read: the bytes that come, and whether an error follows them. The copy of a source
-- whose file or context fails ends in that error.
pub record Source : Type 0 where
  pub bytes : List ℕ
  pub fails : Bool

-- Opening a gzip, zlib or zstd reader may fail; opening a flate reader does not.
pub record Decoders : Type 0 where
  pub gzip : List ℕ → Option Source
  pub zlib : List ℕ → Option Source
  pub zstd : List ℕ → Option Source
  pub flate : List ℕ → Source

pub data Encoding : Type 0 where
  identity gzip deflate zstd unknown : Encoding

abbrev same : List ℕ → List ℕ → Bool
same [] [] = true
same [] (y ∷ ys) = false
same (x ∷ xs) [] = false
same (x ∷ xs) (y ∷ ys) = (x == y) && same xs ys

is_space : ℕ → Bool
is_space c = (leb 9 c && leb c 13) || c == 32

to_lower : ℕ → ℕ
to_lower c = if leb b'A' c && leb c b'Z' then c + 32 else c

trim_left : List ℕ → List ℕ
unfolding is_space
trim_left [] = []
trim_left (c ∷ s) = let rest = trim_left s in if is_space c then rest else c ∷ s

abbrev pub reverse_onto : {A : Type 0} → List A → List A → List A
reverse_onto [] acc = acc
reverse_onto (x ∷ xs) acc = reverse_onto xs (x ∷ acc)

trim_space : List ℕ → List ℕ
unfolding trim_left
trim_space s = reverse_onto (trim_left (reverse_onto (trim_left s) [])) []

-- The pieces of a header value between its commas: one more than there are commas.
split_comma : List ℕ → List ℕ → List (List ℕ)
split_comma piece [] = piece ∷ []
split_comma piece (c ∷ s) = elim (c == b',') [
  | true ↦ piece ∷ split_comma [] s
  | false ↦ split_comma (piece ++ c ∷ []) s
]

unfoldable pub encoding_of : List ℕ → Encoding
unfolding trim_space to_lower
encoding_of piece =
    let name = map to_lower (trim_space piece) in
    if same name [] || same name (b'i' ∷ b'd' ∷ b'e' ∷ b'n' ∷ b't' ∷ b'i' ∷ b't' ∷ b'y' ∷ [])
    then identity
    else if same name (b'g' ∷ b'z' ∷ b'i' ∷ b'p' ∷ [])
        || same name (b'x' ∷ b'-' ∷ b'g' ∷ b'z' ∷ b'i' ∷ b'p' ∷ [])
    then gzip
    else if same name (b'd' ∷ b'e' ∷ b'f' ∷ b'l' ∷ b'a' ∷ b't' ∷ b'e' ∷ [])
    then deflate
    else if same name (b'z' ∷ b's' ∷ b't' ∷ b'd' ∷ [])
    then zstd
    else unknown

unfoldable pub encodings : List ℕ → List Encoding
unfolding split_comma encoding_of
encodings header = map encoding_of (split_comma [] header)

-- A layer is passed over, is not supported, does not open, or can be read.
pub data Opened : Type 0 where
  skipped unsupported invalid : Opened
  opened : Source → Opened

abbrev open_source : Option Source → Opened
open_source none = invalid
open_source (some s) = opened s

-- What zlib refuses is taken for a bare flate stream.
abbrev open_deflate : Option Source → Source → Opened
open_deflate none raw = opened raw
open_deflate (some s) raw = opened s

unfoldable pub open_layer : Decoders → Encoding → List ℕ → Opened
open_layer d identity b = skipped
open_layer d gzip b = open_source (d.gzip b)
open_layer d deflate b = open_deflate (d.zlib b) (d.flate b)
open_layer d zstd b = open_source (d.zstd b)
open_layer d unknown b = unsupported

-- Copying at most limit + 1 bytes; `none` is an error.
unfoldable pub copy_limited : ℕ → Source → Option (List ℕ)
copy_limited limit s =
    if ltb limit (length s.bytes)
    then some (take (limit + 1) s.bytes)
    else if s.fails
    then none
    else some s.bytes

pub data Prepared : Type 0 where
  rejected : ℕ → Prepared
  ready : List ℕ → Prepared

-- The copy of a source into a new file, within the limit.
unfoldable pub store_copy : ℕ → Option (List ℕ) → (List ℕ → Prepared) → Prepared
store_copy limit none next = rejected 400
store_copy limit (some b) next = if ltb limit (length b) then rejected 413 else next b

-- Creating a file: the answers to come, and success behind them.
abbrev pub create : List Bool → Bool × List Bool
create [] = (true, [])
create (answer ∷ answers) = (answer, answers)

-- One layer, and the layers after it.
unfoldable pub decode_layer :
    ℕ → Opened → List Bool → List ℕ → (List Bool → List ℕ → Prepared) → Prepared
unfolding copy_limited store_copy
decode_layer limit skipped files current next = next files current
decode_layer limit unsupported files current next = rejected 415
decode_layer limit invalid files current next = rejected 400
decode_layer limit (opened s) files current next =
    if (create files).0
    then store_copy limit (copy_limited limit s) (next (create files).1)
    else rejected 503

-- The encodings from the last on; at the end the wire's bytes are what is forwarded.
unfoldable pub decode_layers : Decoders → ℕ → List ℕ → List Encoding → List Bool → List ℕ → Prepared
unfolding open_layer decode_layer
decode_layers d limit wire [] files current = ready wire
decode_layers d limit wire (e ∷ es) files current =
    decode_layer limit (open_layer d e current) files current (decode_layers d limit wire es)

unfoldable pub prepare_body : Decoders → ℕ → List Encoding → List Bool → Source → Prepared
unfolding decode_layers
prepare_body d limit es files body =
    if (create files).0
    then store_copy limit (copy_limited limit body) (λ wire.
      if ltb 3 (length es)
      then rejected 415
      else decode_layers d limit wire (reverse_onto es []) (create files).1 wire)
    else rejected 503

-- A body that is only observed: it reports once when more than the limit has been read.
pub record ObservedBody : Type 0 where
  pub limit : ℕ
  pub read : ℕ
  pub reported : Bool
  pub reports : ℕ

unfoldable pub read_observed : ℕ → ObservedBody → ObservedBody
read_observed n b =
    let more : ObservedBody = record b { read = b.read + n } in
    if not more.reported && ltb more.limit more.read
    then record more { reported = true; reports = more.reports + 1 }
    else more

unfoldable pub read_all : List ℕ → ObservedBody → ObservedBody
read_all [] b = b
read_all (n ∷ ns) b = read_all ns (read_observed n b)
