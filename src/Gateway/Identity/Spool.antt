-- ===== src/Gateway/Identity/Spool.antt =====
-- internal/gateway/identity_spool.go: how a span is written to a file and read again.
use native.Mathlib.Omega.{pow_step}
use cliproxy_portal.Common.{
  ℕ, zero, suc, ◌+◌, ◌-◌, ◌*◌, ◌/◌, ◌%◌, ◌^◌, ◌<◌, ◌≡◌, refl, ap, ◌∙◌, false, Option, none, some,
  List, [], ◌∷◌, ◌++◌, append_assoc, arith, ltb, if◌then◌else◌, length, take, drop, length-append,
  take-append, drop-append,
}
use cliproxy_portal.Gateway.Identity.{Span}

-- `binary.LittleEndian`: a number in so many bytes, and the number of bytes.
unfoldable put_uint : ℕ → ℕ → List ℕ
put_uint zero v = []
put_uint (suc n) v = v % 256 ∷ put_uint n (v / 256)

unfoldable uint : List ℕ → ℕ
uint [] = 0
uint (b ∷ bytes) = b + 256 * uint bytes

-- What is written for a span: the low 64 bits of each end.
unfoldable pub write_span : Span → List ℕ
unfolding put_uint
write_span span = put_uint 8 span.start ++ put_uint 8 span.end

-- A number of 64 bits as a signed one; `below` says how far it is under 0.
pub data Int64 : Type 0 where
  at_least below : ℕ → Int64

unfoldable int64 : ℕ → Int64
int64 v = if ltb v (2 ^ 63) then at_least v else below (2 ^ 64 - v)

-- The two ends and what is left, and nothing where there are not enough bytes.
unfoldable pub read_span : List ℕ → Option (Int64 × Int64 × List ℕ)
unfolding uint int64
read_span bytes =
    if ltb (length bytes) 16
    then none
    else some (int64 (uint (take 8 bytes)), int64 (uint (take 8 (drop 8 bytes))), drop 16 bytes)

length-put_uint : (n v : ℕ) → length (put_uint n v) ≡ n
unfolding put_uint
length-put_uint zero v = refl
length-put_uint (suc n) v = ap suc (length-put_uint n (v / 256))

below_pow : (n v : ℕ) → v < 256 ^ suc n → v < 256 * 256 ^ n
below_pow n v h = omega (arith, pow_step 256 n, h)

uint-put_uint : (n v : ℕ) → v < 256 ^ n → uint (put_uint n v) ≡ v
unfolding put_uint uint
uint-put_uint zero v h = omega (arith, h)
uint-put_uint (suc n) v h =
    let rest : uint (put_uint n (v / 256)) ≡ v / 256 =
      uint-put_uint n (v / 256) (omega (arith, below_pow n v h)) in
    rw rest (omega arith)

-- The numbers up to 2 ^ 63 are not negative.
int64-small : (v : ℕ) → v < 2 ^ 63 → int64 v ≡ at_least v
unfolding int64
int64-small v h = ground (arith, h)

read_span-two :
    (a b rest : List ℕ)
    → length a ≡ 8
    → length b ≡ 8
    → read_span ((a ++ b) ++ rest) ≡ some (int64 (uint a), int64 (uint b), rest)
unfolding read_span
read_span-two a b rest h k =
    let sizes = length-append (a ++ b) rest in
    let both : length (a ++ b) ≡ 16 = omega (arith, length-append a b, h, k) in
    let enough : ltb (length ((a ++ b) ++ rest)) 16 ≡ false = ground (arith, sizes, both) in
    let last : drop 16 ((a ++ b) ++ rest) ≡ rest = drop-append 16 (a ++ b) rest both in
    let apart = append_assoc a b rest in
    let first : take 8 ((a ++ b) ++ rest) ≡ a = rw apart (take-append 8 a (b ++ rest) h) in
    let second : take 8 (drop 8 ((a ++ b) ++ rest)) ≡ b =
      rw (apart, drop-append 8 a (b ++ rest) h) (take-append 8 b rest k) in
    rw (enough, last, first, second) refl

int64-put_uint : (v : ℕ) → v < 2 ^ 63 → int64 (uint (put_uint 8 v)) ≡ at_least v
int64-put_uint v h = rw (uint-put_uint 8 v (omega (arith, h))) (int64-small v h)

both_ends : {a b : Int64} (x y : Int64) → x ≡ a → y ≡ b → ◌≡◌ {A = Int64 × Int64} (x, y) (a, b)
both_ends x y e f = rw (e, f) refl

-- A span that is written is what is read again, and the bytes behind it are left, where its ends are
-- below 2 ^ 63.
pub read_span-write_span :
    (span : Span) (rest : List ℕ)
    → span.start < 2 ^ 63
    → span.end < 2 ^ 63
    → read_span (write_span span ++ rest) ≡ some (at_least span.start, at_least span.end, rest)
unfolding write_span
read_span-write_span span rest h k =
    read_span-two (put_uint 8 span.start) (put_uint 8 span.end) rest (length-put_uint 8 span.start)
      (length-put_uint 8 span.end)
    ∙ (let low = int64-put_uint span.start h in
        let high = int64-put_uint span.end k in
        ap (λ (ends : Int64 × Int64). some (ends.0, ends.1, rest))
          (both_ends (int64 (uint (put_uint 8 span.start))) (int64 (uint (put_uint 8 span.end))) low
            high))
