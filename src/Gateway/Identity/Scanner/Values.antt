-- ===== src/Gateway/Identity/Scanner/Values.antt =====
-- internal/gateway/identity_json_stream.go: the loops over objects and arrays come to their end, and
-- so does `skip`, whose recursion the limit on the depth bounds.
use cliproxy_portal.Common.{
  ℕ, zero, suc, ◌+◌, ◌-◌, ◌≤◌, ◌<◌, ◌≡◌, refl, ap, ◌∙◌, inl, inr, List, [], ◌∷◌, arith, ltb, ◌==◌,
  if◌then◌else◌, Bool-cases, length,
}
use cliproxy_portal.Gateway.Identity.{invalid, Result, ok, failed, ◌>>=◌}
use cliproxy_portal.Gateway.Identity.Scanner.{
  Scanner, Scan, Field, advance, next_byte, peek, read_byte, whitespace, expect, string,
  short_string, nested, max_depth, closes_with, object_loop, object_body, object, array_loop,
  array_body, array, word, word_at, skip_leaf, skip_value, skip_levels, skip, metadata,
}
use cliproxy_portal.Gateway.Identity.Scanner.Moves.{
  IsAt, Moved, stay, Moved-trans, Fine, Anything, Fine-bind, Fine-if, peek-Fine, read_byte-Fine,
  whitespace-Fine, expect-Fine, string-Fine, advance-Moved, IsSpan, length-rest,
}
use cliproxy_portal.Gateway.Identity.Scanner.Numbers.{seen-there, number-Fine}

closes-Fine :
    {A : Type 0} (close : ℕ) (a : A) (b : ℕ) (s : Scanner) (again : Scan A)
    → IsAt s
    → Fine Anything s (again s)
    → Fine Anything s (closes_with close a (b, s) again)
closes-Fine close a b s again h f =
    Fine-if Anything s (b == close) (ok (a, s)) _ (stay s h, tt)
      (Fine-if Anything s (b == b',') (again s) (failed invalid) f tt)

-- What follows a member: white space, and a byte that ends the loop or goes on with it.
member_end-Fine :
    {A : Type 0} (close : ℕ) (a : A) (s : Scanner) (again : Scan A)
    → IsAt s
    → ((t : Scanner) → Moved s t → s.offset + 1 ≤ t.offset → Fine Anything t (again t))
    → Fine Anything s
        (whitespace s >>= λ x. read_byte (x.1) >>= λ last. closes_with close a last again)
member_end-Fine close a s again h later =
    Fine-bind Anything Anything s (whitespace s) _ (whitespace-Fine s h) (λ u t m p.
      Fine-bind (λ b v. t.offset + 1 ≤ v.offset) Anything t (read_byte t) _
        (read_byte-Fine t m.there)
        (λ b v k q.
          closes-Fine close a b v again k.there
            (later v (Moved-trans s t v m k) (omega (arith, m.forward, q)))))

-- A callback is fine wherever the scanner stands on the level.
abbrev pub FineField : {A : Type 0} → ℕ → Field A → Type 0
FineField {A} depth field =
    (key : List ℕ) (a : A) (t : Scanner)
    → IsAt t
    → t.depth ≡ depth
    → Fine Anything t (field key a t)

abbrev pub FineScan : {A : Type 0} → ℕ → Scan A → Type 0
FineScan depth value = (t : Scanner) → IsAt t → t.depth ≡ depth → Fine Anything t (value t)

object_loop-Fine :
    {A : Type 0} (fuel : ℕ) (field : Field A) (a : A) (s : Scanner) (depth : ℕ)
    → FineField depth field
    → IsAt s
    → s.depth ≡ depth
    → length s.file < fuel + s.offset
    → Fine Anything s (object_loop fuel field a s)
unfolding object_loop
object_loop-Fine zero field a s depth f h d lt = absurd (omega (arith, h.offset_low))
object_loop-Fine (suc fuel) field a s depth f h d lt =
    Fine-bind (IsSpan s) Anything s (string s) _ (string-Fine s h) (λ key s1 m1 p1.
      Fine-bind _ Anything s1 (expect b':' s1) _ (expect-Fine b':' s1 m1.there) (λ u s2 m2 p2.
        Fine-bind Anything Anything s2 (whitespace s2) _ (whitespace-Fine s2 m2.there)
          (λ u s3 m3 p3.
            let m = Moved-trans s s1 s3 m1 (Moved-trans s1 s2 s3 m2 m3) in
            Fine-bind Anything Anything s3 (field (short_string s3 key 128) a s3) _
              (f (short_string s3 key 128) a s3 m3.there (m.depth_eq ∙ d))
              (λ a' s4 m4 p4.
                let n = Moved-trans s s3 s4 m m4 in
                member_end-Fine b'}' a' s4 (object_loop fuel field a') m4.there (λ t k q.
                  object_loop-Fine fuel field a' t depth f k.there (k.depth_eq ∙ n.depth_eq ∙ d)
                    (omega (arith, lt, q, n.forward, ap length (k.file_eq ∙ n.file_eq))))))))

array_loop-Fine :
    (fuel : ℕ) (value : Scan (Unit {0})) (s : Scanner) (depth : ℕ)
    → FineScan depth value
    → IsAt s
    → s.depth ≡ depth
    → length s.file < fuel + s.offset
    → Fine Anything s (array_loop fuel value s)
unfolding array_loop
array_loop-Fine zero value s depth f h d lt = absurd (omega (arith, h.offset_low))
array_loop-Fine (suc fuel) value s depth f h d lt =
    Fine-bind Anything Anything s (whitespace s) _ (whitespace-Fine s h) (λ u s1 m1 p1.
      Fine-bind Anything Anything s1 (value s1) _ (f s1 m1.there (m1.depth_eq ∙ d)) (λ u s2 m2 p2.
        let n = Moved-trans s s1 s2 m1 m2 in
        member_end-Fine b']' tt s2 (array_loop fuel value) m2.there (λ t k q.
          array_loop-Fine fuel value t depth f k.there (k.depth_eq ∙ n.depth_eq ∙ d)
            (omega (arith, lt, q, n.forward, ap length (k.file_eq ∙ n.file_eq))))))

-- One level deeper and back the scanner is where its body has brought it.
leave-Moved :
    (s t : Scanner)
    → Moved (record s { depth = s.depth + 1 }) t
    → Moved s (record t { depth = t.depth - 1 })
leave-Moved s t m = record {
  there = record { rest_eq = m.there.rest_eq; offset_low = m.there.offset_low };
  file_eq = m.file_eq;
  broken_eq = m.broken_eq;
  depth_eq = omega (arith, m.depth_eq);
  forward = m.forward;
  added = m.added;
  candidates_eq = m.candidates_eq;
}

leave-Fine :
    {A : Type 0} (s : Scanner) (r : Result (A × Scanner))
    → Fine Anything (record s { depth = s.depth + 1 }) r
    → Fine Anything s (r >>= λ x. ok (x.0, record (x.1) { depth = x.1.depth - 1 }))
leave-Fine s (failed e) f = f
leave-Fine s (ok (a, t)) f = (leave-Moved s t f.0, tt)

nested-Fine :
    {A : Type 0} (body : Scan A) (s : Scanner)
    → IsAt s
    → (s.depth + 1 ≤ max_depth → FineScan (s.depth + 1) body)
    → Fine Anything s (nested body s)
nested-Fine body s h f =
    let inside : Scanner = record s { depth = s.depth + 1 } in
    elim (Bool-cases (ltb max_depth (s.depth + 1))) [
      | inl deep ↦ rw deep tt
      | inr low ↦ rw low (
          leave-Fine s (body inside) (
            f (ground arith) inside record { rest_eq = h.rest_eq; offset_low = h.offset_low } refl))
    ]

-- Behind the opening byte: the closing one, or the loop.
opened-Fine :
    {A : Type 0} (close : ℕ) (a : A) (t : Scanner) (loop : Result (A × Scanner))
    → 0 < close
    → IsAt t
    → Fine Anything t loop
    → Fine Anything t (if next_byte t == close then ok (a, advance 1 t) else loop)
opened-Fine close a t loop p h f = elim (Bool-cases (next_byte t == close)) [
  | inl e ↦ rw e (advance-Moved 1 t h (seen-there close t.rest e p), tt)
  | inr e ↦ rw e f
]

enough : (s : Scanner) → IsAt s → length s.file < length s.rest + 1 + s.offset
enough s h = omega (arith, length-rest s h, h.offset_low)

pub object-Fine :
    {A : Type 0} (field : Field A) (a : A) (s : Scanner)
    → IsAt s
    → (s.depth + 1 ≤ max_depth → FineField (s.depth + 1) field)
    → Fine Anything s (object field a s)
unfolding object
object-Fine field a s h f = nested-Fine (object_body field a) s h (λ low t k d.
    Fine-bind _ Anything t (expect b'{' t) _ (expect-Fine b'{' t k) (λ u t1 m1 p1.
      Fine-bind Anything Anything t1 (whitespace t1) _ (whitespace-Fine t1 m1.there) (λ u t2 m2 p2.
        opened-Fine b'}' a t2 _ (omega arith) m2.there (
          object_loop-Fine (length t2.rest + 1) field a t2 (s.depth + 1) (f low) m2.there
            (m2.depth_eq ∙ m1.depth_eq ∙ d) (enough t2 m2.there)))))

pub array-Fine :
    (value : Scan (Unit {0})) (s : Scanner)
    → IsAt s
    → (s.depth + 1 ≤ max_depth → FineScan (s.depth + 1) value)
    → Fine Anything s (array value s)
unfolding array
array-Fine value s h f = nested-Fine (array_body value) s h (λ low t k d.
    Fine-bind _ Anything t (expect b'[' t) _ (expect-Fine b'[' t k) (λ u t1 m1 p1.
      Fine-bind Anything Anything t1 (whitespace t1) _ (whitespace-Fine t1 m1.there) (λ u t2 m2 p2.
        opened-Fine b']' tt t2 _ (omega arith) m2.there (
          array_loop-Fine (length t2.rest + 1) value t2 (s.depth + 1) (f low) m2.there
            (m2.depth_eq ∙ m1.depth_eq ∙ d) (enough t2 m2.there)))))

word-Fine : (w : List ℕ) (s : Scanner) → IsAt s → Fine Anything s (word w s)
unfolding word
word-Fine [] s h = (stay s h, tt)
word-Fine (c ∷ w) s h =
    Fine-bind _ Anything s (read_byte s) _ (read_byte-Fine s h) (λ b t m p.
      Fine-if Anything t (b == c) (word w t) (failed invalid) (word-Fine w t m.there) tt)

leaf-Fine : (b : ℕ) (s : Scanner) → IsAt s → Fine Anything s (skip_leaf b s)
unfolding skip_leaf
leaf-Fine b s h =
    Fine-if Anything s (b == 34) _ _
      (Fine-bind (IsSpan s) Anything s (string s) _ (string-Fine s h)
        (λ span t m p. (stay t m.there, tt)))
      (Fine-if Anything s _ _ _ (word-Fine (word_at b) s h) (number-Fine s h))

value-Fine :
    (objects arrays : Scan (Unit {0})) (s : Scanner) (depth : ℕ)
    → FineScan depth objects
    → FineScan depth arrays
    → IsAt s
    → s.depth ≡ depth
    → Fine Anything s (skip_value objects arrays s)
unfolding skip_value
value-Fine objects arrays s depth f g h d =
    Fine-bind Anything Anything s (whitespace s) _ (whitespace-Fine s h) (λ u t m p.
      Fine-bind Anything Anything t (peek t) _ (peek-Fine t m.there) (λ b v k q.
        let e = k.depth_eq ∙ m.depth_eq ∙ d in
        Fine-if Anything v (b == b'{') _ _ (f v k.there e)
          (Fine-if Anything v (b == b'[') _ _ (g v k.there e) (leaf-Fine b v k.there))))

pub skip_levels-Fine :
    (levels depth : ℕ)
    → depth ≤ max_depth
    → max_depth + 1 ≤ levels + depth
    → FineScan depth (skip_levels levels)
unfolding skip_levels
skip_levels-Fine zero depth low enough s h d = absurd (omega arith)
skip_levels-Fine (suc left) depth low enough s h d =
    value-Fine _ _ s depth
      (λ t k e.
        object-Fine (λ key a. skip_levels left) tt t k
          (λ fits key a v j g. skip_levels-Fine left (t.depth + 1) fits (omega arith) v j g))
      (λ t k e.
        array-Fine (skip_levels left) t k
          (λ fits v j g. skip_levels-Fine left (t.depth + 1) fits (omega arith) v j g))
      h d

-- Wherever `skip` begins, at a depth that is allowed, it comes to its end.
pub skip-Fine : (s : Scanner) → IsAt s → s.depth ≤ max_depth → Fine Anything s (skip s)
unfolding skip
skip-Fine s h low = skip_levels-Fine (max_depth + 1 - s.depth) s.depth low (omega arith) s h refl

pub metadata-Fine :
    (maximum : ℕ) (s : Scanner)
    → IsAt s
    → s.depth ≤ max_depth
    → Fine Anything s (metadata maximum s)
unfolding metadata
metadata-Fine maximum s h low =
    Fine-bind Anything Anything s (whitespace s) _ (whitespace-Fine s h) (λ u t m p.
      Fine-bind Anything Anything t (peek t) _ (peek-Fine t m.there) (λ b v k q.
        Fine-if Anything v (b == 34) _ _
          (Fine-bind (IsSpan v) Anything v (string v) _ (string-Fine v k.there)
            (λ span w j r. (stay w j.there, tt)))
          (Fine-bind Anything Anything v (skip v) _
            (skip-Fine v k.there (omega (arith, low, k.depth_eq, m.depth_eq)))
            (λ u w j r. (stay w j.there, tt)))))
