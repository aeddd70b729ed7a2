-- ===== src/Gateway/Identity/Scanner/Numbers.antt =====
-- internal/gateway/identity_json_stream.go: the scan of a number only moves forward.
use cliproxy_portal.Common.{
  ℕ, ◌≤◌, ◌<◌, ◌≡◌, refl, inl, inr, Bool, true, false, ◌||◌, List, [], ◌∷◌, arith, ◌==◌,
  if◌then◌else◌, Bool-cases, length,
}
use cliproxy_portal.Gateway.Identity.{invalid, ok, failed}
use cliproxy_portal.Gateway.Identity.Scanner.{
  Scanner, advance, front_byte, next_byte, peek, accept_byte, need_digits, is_digit, is_sign,
  is_minus, whole_part, fraction, exponent, digits, number,
}
use cliproxy_portal.Gateway.Identity.Scanner.Moves.{
  IsAt, Moved, stay, Moved-trans, Fine, Anything, Fine-after, Fine-bind, Fine-if, peek-there,
  run_length-le, advance-Moved,
}

-- A byte that the scanner sees is there to be read.
pub seen-there : (b : ℕ) (l : List ℕ) → (front_byte l == b) ≡ true → 0 < b → 1 ≤ length l
seen-there b [] e p = ground arith
seen-there b (c ∷ l) e p = omega arith

accept-Moved :
    (test : ℕ → Bool) (s : Scanner) → test 0 ≡ false → IsAt s → Moved s (accept_byte test s)
accept-Moved test s z h = go s.rest refl
  where
    go : (l : List ℕ) → s.rest ≡ l → Moved s (if test (front_byte l) then advance 1 s else s)
    go [] e = rw z (stay s h)
    go (b ∷ l) e = elim (Bool-cases (test b)) [
      | inl fits ↦ rw fits (advance-Moved 1 s h (rw e (omega arith)))
      | inr other ↦ rw other (stay s h)
    ]

digits-Fine : (s : Scanner) → IsAt s → Fine Anything s (need_digits s)
unfolding digits
digits-Fine s h =
    Fine-if Anything s (digits s).0 (ok (tt, (digits s).1)) (failed invalid)
      (advance-Moved _ s h (run_length-le is_digit s.rest), tt) tt

whole-Fine : (b : ℕ) (s : Scanner) → IsAt s → 1 ≤ length s.rest → Fine Anything s (whole_part b s)
unfolding whole_part digits
whole-Fine b s h there =
    Fine-if Anything s (b == b'0') _ _ (advance-Moved 1 s h there, tt)
      (Fine-if Anything s _ (ok (tt, (digits s).1)) (failed invalid)
        (advance-Moved _ s h (run_length-le is_digit s.rest), tt) tt)

fraction-Fine : (s : Scanner) → IsAt s → Fine Anything s (fraction s)
unfolding fraction
fraction-Fine s h = elim (Bool-cases (next_byte s == b'.')) [
  | inl e ↦
      let m = advance-Moved 1 s h (seen-there b'.' s.rest e (omega arith)) in
      rw e (Fine-after Anything s (advance 1 s) _ m (digits-Fine (advance 1 s) m.there))
  | inr e ↦ rw e (stay s h, tt)
]

exponent-Fine : (s : Scanner) → IsAt s → Fine Anything s (exponent s)
unfolding exponent
exponent-Fine s h = elim (Bool-cases (next_byte s == b'e' || next_byte s == b'E')) [
  | inl e ↦
      let m = advance-Moved 1 s h (letter-there s.rest e) in
      let k = accept-Moved is_sign (advance 1 s) refl m.there in
      rw e (
        Fine-after Anything s (accept_byte is_sign (advance 1 s)) _
          (Moved-trans s (advance 1 s) (accept_byte is_sign (advance 1 s)) m k)
          (digits-Fine (accept_byte is_sign (advance 1 s)) k.there))
  | inr e ↦ rw e (stay s h, tt)
]
  where
    letter-there :
        (l : List ℕ) → (front_byte l == b'e' || front_byte l == b'E') ≡ true → 1 ≤ length l
    letter-there [] e = ground arith
    letter-there (c ∷ l) e = omega arith

pub number-Fine : (s : Scanner) → IsAt s → Fine Anything s (number s)
unfolding number
number-Fine s h =
    let m = accept-Moved is_minus s refl h in
    let signed = accept_byte is_minus s in
    Fine-after Anything s signed _ m (
      Fine-bind (λ b t. 1 ≤ length t.rest) Anything signed (peek signed) _
        (peek-there signed m.there)
        (λ b t k p.
          Fine-bind Anything Anything t (whole_part b t) _ (whole-Fine b t k.there p) (λ u t1 m1 p1.
            Fine-bind Anything Anything t1 (fraction t1) _ (fraction-Fine t1 m1.there)
              (λ u t2 m2 p2. exponent-Fine t2 m2.there))))
