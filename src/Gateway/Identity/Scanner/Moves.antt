-- ===== src/Gateway/Identity/Scanner/Moves.antt =====
-- internal/gateway/identity_json_stream.go: the scanner only moves forward in its file, by the bytes
-- that it reads, and only ever appends to the candidates.
use cliproxy_portal.Common.{
  ℕ, suc, ◌+◌, ◌-◌, ◌≤◌, ◌≡◌, refl, sym, ap, ◌∙◌, subst, Bool, true, false, List, [], ◌∷◌, ◌++◌,
  append_assoc, append-nil, arith, ◌==◌, if◌then◌else◌, length, drop, length-drop, drop-drop,
}
use cliproxy_portal.Gateway.Identity.{
  Span, ScanError, end_of_file, read_failed, invalid, Own, Result, ok, failed, ◌>>=◌,
}
use cliproxy_portal.Gateway.Identity.Scanner.{
  Scanner, ending, advance, run_length, peek, read_byte, whitespace, expect, Within, plain, Turn,
  closes, refuses, goes, turn, string_length, string, first_of, is_white,
}

-- What is left is the file behind the offset.
pub record IsAt (s : Scanner) : Type 0 where
  pub rest_eq : s.rest ≡ drop s.offset s.file
  pub offset_low : s.offset ≤ length s.file

pub record Moved (s t : Scanner) : Type 0 where
  pub there : IsAt t
  pub file_eq : t.file ≡ s.file
  pub broken_eq : t.broken ≡ s.broken
  pub depth_eq : t.depth ≡ s.depth
  pub forward : s.offset ≤ t.offset
  pub added : List Span
  pub candidates_eq : t.candidates ≡ s.candidates ++ added

pub stay : (s : Scanner) → IsAt s → Moved s s
stay s h = record {
  there = h;
  file_eq = refl;
  broken_eq = refl;
  depth_eq = refl;
  forward = omega arith;
  added = [];
  candidates_eq = sym (append-nil s.candidates);
}

pub Moved-trans : (s t u : Scanner) → Moved s t → Moved t u → Moved s u
Moved-trans s t u h k = record {
  there = k.there;
  file_eq = k.file_eq ∙ h.file_eq;
  broken_eq = k.broken_eq ∙ h.broken_eq;
  depth_eq = k.depth_eq ∙ h.depth_eq;
  forward = omega (arith, h.forward, k.forward);
  added = h.added ++ k.added;
  candidates_eq =
      k.candidates_eq
      ∙ ap (λ (l : List Span). l ++ k.added) h.candidates_eq
      ∙ append_assoc s.candidates h.added k.added;
}

pub length-rest : (s : Scanner) → IsAt s → length s.rest ≡ length s.file - s.offset
length-rest s h = ap length h.rest_eq ∙ length-drop s.offset s.file

pub advance-IsAt : (n : ℕ) (s : Scanner) → IsAt s → n ≤ length s.rest → IsAt (advance n s)
advance-IsAt n s h le = record {
  rest_eq =
      ap (drop n) h.rest_eq
      ∙ (let back : s.offset + n - s.offset ≡ n = omega arith in
          subst (λ (k : ℕ). drop k (drop s.offset s.file) ≡ drop (s.offset + n) s.file) back
            (drop-drop s.offset (s.offset + n) s.file (omega arith)));
  offset_low = omega (arith, le, length-rest s h, h.offset_low);
}

pub advance-Moved : (n : ℕ) (s : Scanner) → IsAt s → n ≤ length s.rest → Moved s (advance n s)
advance-Moved n s h le = record {
  there = advance-IsAt n s h le;
  file_eq = refl;
  broken_eq = refl;
  depth_eq = refl;
  forward = omega arith;
  added = [];
  candidates_eq = sym (append-nil s.candidates);
}

-- A step is fine that moves the scanner and keeps its promise, or fails for a reason of the
-- input's, or because a read fails.
abbrev pub Fine {ℓ} :
    {A : Type ℓ} → (A → Scanner → Type 0) → Scanner → Result (A × Scanner) → Type 0
Fine P s (failed e) = Own s.broken e
Fine P s (ok (a, t)) = Moved s t × P a t

-- No promise.
abbrev pub Anything {ℓ} : {A : Type ℓ} → A → Scanner → Type 0
Anything a t = Unit {0}

pub Fine-after {ℓ} :
    {A : Type ℓ} (P : A → Scanner → Type 0) (s t : Scanner) (r : Result (A × Scanner))
    → Moved s t
    → Fine P t r
    → Fine P s r
Fine-after P s t (failed e) h f = subst (λ (b : Bool). Own b e) h.broken_eq f
Fine-after P s t (ok (a, u)) h f = (Moved-trans s t u h f.0, f.1)

-- A step and the steps behind it.
pub Fine-bind {ℓ κ} :
    {A : Type ℓ} {B : Type κ} (P : A → Scanner → Type 0) (Q : B → Scanner → Type 0) (s : Scanner)
    (r : Result (A × Scanner)) (f : A × Scanner → Result (B × Scanner))
    → Fine P s r
    → ((a : A) (t : Scanner) → Moved s t → P a t → Fine Q t (f (a, t)))
    → Fine Q s (r >>= f)
Fine-bind P Q s (failed e) f h later = h
Fine-bind P Q s (ok (a, t)) f h later = Fine-after Q s t (f (a, t)) h.0 (later a t h.0 h.1)

-- An error, unless a step follows.
pub Fine-if {ℓ} :
    {A : Type ℓ} (P : A → Scanner → Type 0) (s : Scanner) (test : Bool) (r q : Result (A × Scanner))
    → Fine P s r
    → Fine P s q
    → Fine P s (if test then r else q)
Fine-if P s true r q h k = h
Fine-if P s false r q h k = k

pub ending-input : (s : Scanner) → Own s.broken (ending s)
ending-input s = go s.broken
  where
    go : (broken : Bool) → Own broken (if broken then read_failed else end_of_file)
    go true = refl
    go false = tt

-- A test that may refuse.
pub test-Fine {ℓ} :
    {A : Type ℓ} (P : A → Scanner → Type 0) (s : Scanner) (a : A) (test : Bool)
    → IsAt s
    → P a s
    → Fine P s (if test then ok (a, s) else failed invalid)
test-Fine P s a true h p = (stay s h, p)
test-Fine P s a false h p = tt

refuse-Fine {ℓ} :
    {A : Type ℓ} (P : A → Scanner → Type 0) (s : Scanner) (a : A) (test : Bool)
    → IsAt s
    → P a s
    → (test ≡ true → s.broken ≡ true)
    → Fine P s (if test then failed read_failed else ok (a, s))
refuse-Fine P s a true h p broken = broken refl
refuse-Fine P s a false h p broken = (stay s h, p)

-- Behind a successful peek there is a byte.
pub peek-there : (s : Scanner) → IsAt s → Fine (λ b t. 1 ≤ length t.rest) s (peek s)
unfolding peek
peek-there s h = go s.rest refl
  where
    go :
        (l : List ℕ)
        → s.rest ≡ l
        → Fine (λ b t. 1 ≤ length t.rest) s (first_of (ending s) l >>= λ (b : ℕ). ok (b, s))
    go [] e = ending-input s
    go (b ∷ l) e = (stay s h, rw e (omega arith))

pub Fine-forget {ℓ} :
    {A : Type ℓ} (P : A → Scanner → Type 0) (s : Scanner) (r : Result (A × Scanner))
    → Fine P s r
    → Fine Anything s r
Fine-forget P s (failed e) f = f
Fine-forget P s (ok (a, t)) f = (f.0, tt)

pub peek-Fine : (s : Scanner) → IsAt s → Fine Anything s (peek s)
peek-Fine s h = Fine-forget _ s (peek s) (peek-there s h)

pub read_byte-Fine : (s : Scanner) → IsAt s → Fine (λ b t. s.offset + 1 ≤ t.offset) s (read_byte s)
unfolding read_byte
read_byte-Fine s h = go s.rest refl
  where
    go :
        (l : List ℕ)
        → s.rest ≡ l
        → Fine
            (λ b t. s.offset + 1 ≤ t.offset)
            s
            (first_of (ending s) l >>= λ (b : ℕ). ok (b, advance 1 s))
    go [] e = ending-input s
    go (b ∷ l) e = (advance-Moved 1 s h (rw e (omega arith)), omega arith)

pub run_length-le : (test : ℕ → Bool) (l : List ℕ) → run_length test l ≤ length l
run_length-le test [] = omega arith
run_length-le test (b ∷ l) = ground (arith, run_length-le test l)

pub whitespace-Fine : (s : Scanner) → IsAt s → Fine Anything s (whitespace s)
unfolding whitespace
whitespace-Fine s h =
    let m = advance-Moved (run_length is_white s.rest) s h (run_length-le is_white s.rest) in
    Fine-after Anything s (advance (run_length is_white s.rest) s) _ m (
      refuse-Fine Anything (advance (run_length is_white s.rest) s) tt _ m.there tt
        (λ e. ground (arith, e)))

pub expect-Fine :
    (want : ℕ) (s : Scanner) → IsAt s → Fine (λ u t. s.offset + 1 ≤ t.offset) s (expect want s)
unfolding expect
expect-Fine want s h = Fine-bind Anything _ s (whitespace s) _ (whitespace-Fine s h) (λ u t m p.
    Fine-bind (λ b v. t.offset + 1 ≤ v.offset) _ t (read_byte t) _ (read_byte-Fine t m.there)
      (λ b v k q. test-Fine _ v tt (b == want) k.there (omega (arith, m.forward, q))))

-- The scan of a string counts bytes that are there, one at least.
abbrev Counted : Bool → List ℕ → Result ℕ → Type 0
Counted broken l (failed e) = Own broken e
Counted broken l (ok n) = (1 ≤ n) × (n ≤ length l)

Counted-suc :
    (broken : Bool) (b : ℕ) (l : List ℕ) (r : Result ℕ)
    → Counted broken l r
    → Counted broken (b ∷ l) (r >>= λ n. ok (suc n))
Counted-suc broken b l (failed e) h = h
Counted-suc broken b l (ok n) h = (omega arith, omega (arith, h.1))

string_length-Counted :
    (broken : Bool) (e : ScanError) (w : Within) (l : List ℕ)
    → Own broken e
    → Counted broken l (string_length e w l)
unfolding string_length
string_length-Counted broken e w [] h = h
string_length-Counted broken e w (b ∷ l) h =
    go (turn w b) (λ w'. string_length-Counted broken e w' l h)
  where
    go :
        (o : Turn)
        → ((w' : Within) → Counted broken l (string_length e w' l))
        → Counted broken (b ∷ l) (elim o [
          | closes ↦ ok 1
          | refuses ↦ failed invalid
          | goes w' ↦ string_length e w' l >>= λ n. ok (suc n)
        ])
    go closes later = (omega arith, omega arith)
    go refuses later = tt
    go (goes w') later = Counted-suc broken b l _ (later w')

-- What a string's span is: it begins behind the place where the scan began and ends where it ends.
abbrev pub IsSpan : Scanner → Span → Scanner → Type 0
IsSpan s span t = (s.offset ≤ span.start) × (span.start + 2 ≤ span.end) × (span.end ≡ t.offset)

close_string :
    (s opened inside : Scanner) (r : Result ℕ)
    → Moved s opened
    → Moved opened inside
    → opened.offset + 1 ≤ inside.offset
    → Counted inside.broken inside.rest r
    → Fine (IsSpan s) inside (
        r >>= λ n. ok (record { start = opened.offset; end = inside.offset + n }, advance n inside))
close_string s opened inside (failed e) m k q c = c
close_string s opened inside (ok n) m k q c =
    (advance-Moved n inside k.there c.1, (m.forward, omega (arith, q, c.0), refl))

pub string-Fine : (s : Scanner) → IsAt s → Fine (IsSpan s) s (string s)
unfolding string
string-Fine s h =
    Fine-bind Anything (IsSpan s) s (whitespace s) _ (whitespace-Fine s h) (λ u opened m p.
      Fine-bind (λ v inside. opened.offset + 1 ≤ inside.offset) (IsSpan s) opened (expect 34 opened)
        _ (expect-Fine 34 opened m.there)
        (λ v inside k q. close_string s opened inside _ m k q (
          string_length-Counted inside.broken (ending inside) plain inside.rest
            (ending-input inside))))
