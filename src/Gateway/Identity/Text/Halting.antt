-- ===== src/Gateway/Identity/Text/Halting.antt =====
-- internal/gateway/identity_text_stream.go: the scan of a text comes to its end, since every match
-- of the qualifier takes it further.
use cliproxy_portal.Common.{
  ℕ, zero, suc, ◌+◌, ◌-◌, ◌≤◌, ◌<◌, ◌≡◌, refl, ap, subst, ◌⊎◌, inl, inr, Bool, true, false, Option,
  none, some, List, [], ◌∷◌, arith, ltb, ◌==◌, if◌then◌else◌, Bool-cases, All,
}
use cliproxy_portal.Gateway.Identity.{
  Span, ScanError, end_of_file, unexpected_end, bad_text, invalid, out_of_fuel, Own, Result, ok,
  failed, ◌>>=◌, failed-ne-ok, >>=-eq-ok, read_failed, no_file,
}
use cliproxy_portal.Gateway.Identity.Runes.{Rune}
use cliproxy_portal.Gateway.Identity.Text.{
  Tables, Source, runes, sentence_from, sentence_end, QuoteState, Locating, locate_from,
  locate_match, scan_match, scan_from, scan_opening, scan_text,
}
use cliproxy_portal.Gateway.Identity.Runes.Reads.{Follows, read_runes-Follows}

-- An end with a result, or with an error that the text is the reason of.
abbrev pub Halts {ℓ} : {A : Type ℓ} → Result A → Type 0
Halts (ok a) = Unit {0}
Halts (failed e) = Own false e

pub Halts-if {ℓ} :
    {A : Type ℓ} (test : Bool) (r q : Result A) → Halts r → Halts q → Halts (if test then r else q)
Halts-if true r q h k = h
Halts-if false r q h k = k

pub Halts-bind {ℓ κ} :
    {A : Type ℓ} {B : Type κ} (m : Result A) (f : A → Result B)
    → Halts m
    → ((a : A) → m ≡ ok a → Halts (f a))
    → Halts (m >>= f)
Halts-bind (ok a) f h k = k a refl
Halts-bind (failed e) f h k = h

not_below :
    (at a decoded last : ℕ) → ltb decoded last ≡ false → (at < a) ⊎ (decoded < last) → at < a
not_below at a decoded last ge (inl lt) = lt
not_below at a decoded last ge (inr lt) = absurd (ground (arith, ge, lt))

done_behind :
    (t : Tables) (at last decoded : ℕ) (l m : Locating)
    → at < l.span.end
    → (if decoded == last then ok l else failed bad_text) ≡ ok m
    → at < m.span.end
done_behind t at last decoded l m lt h = elim (Bool-cases (decoded == last)) [
  | inl e ↦
      (let same : ok l ≡ ok m = rw e at h in
        let q : l ≡ m = cc in subst (λ (n : Locating). at < n.span.end) q lt)
  | inr e ↦ (let bad : failed bad_text ≡ ok m = rw e at h in failed-ne-ok bad)
]

-- Behind a match that is not empty the scan is further on.
locate_from-behind :
    (t : Tables) (at first last decoded : ℕ) (ending : ScanError) (l m : Locating)
    (items : List Rune)
    → All (λ (r : Rune). at < r.end) items
    → (at < l.span.end) ⊎ (decoded < last)
    → locate_from t first last decoded ending l items ≡ ok m
    → at < m.span.end
unfolding locate_from
locate_from-behind t at first last decoded ending l m [] b c h =
    elim (Bool-cases (ltb decoded last)) [
      | inl lt ↦ (let bad : failed ending ≡ ok m = rw lt at h in failed-ne-ok bad)
      | inr ge ↦
          let h' : (if decoded == last then ok l else failed bad_text) ≡ ok m = rw ge at h in
          done_behind t at last decoded l m (not_below at l.span.end decoded last ge c) h'
    ]
locate_from-behind t at first last decoded ending l m (r ∷ items) b c h =
    elim (Bool-cases (ltb decoded last)) [
      | inl lt ↦
          locate_from-behind t at first last (decoded + r.size) ending _ m items b.1 (inl b.0)
            (rw lt at h)
      | inr ge ↦
          let h' : (if decoded == last then ok l else failed bad_text) ≡ ok m = rw ge at h in
          done_behind t at last decoded l m (not_below at l.span.end decoded last ge c) h'
    ]

locate_from-Halts :
    (t : Tables) (first last decoded : ℕ) (ending : ScanError) (l : Locating) (items : List Rune)
    → Own false ending
    → Halts (locate_from t first last decoded ending l items)
unfolding locate_from
locate_from-Halts t first last decoded ending l [] e =
    Halts-if (ltb decoded last) (failed ending) _ e
      (Halts-if (decoded == last) (ok l) (failed bad_text) tt tt)
locate_from-Halts t first last decoded ending l (r ∷ items) e =
    Halts-if (ltb decoded last) _ _
      (locate_from-Halts t first last (decoded + r.size) ending _ items e)
      (Halts-if (decoded == last) (ok l) (failed bad_text) tt tt)

sentence_from-Halts :
    (t : Tables) (opening_end last : ℕ) (ending : ScanError) (decoded : ℕ) (blank : Bool)
    (items : List Rune)
    → Own false ending
    → Halts (sentence_from t opening_end last ending decoded blank items)
unfolding sentence_from
sentence_from-Halts t opening_end last end_of_file decoded blank [] e = tt
sentence_from-Halts t opening_end last read_failed decoded blank [] e = e
sentence_from-Halts t opening_end last invalid decoded blank [] e = e
sentence_from-Halts t opening_end last unexpected_end decoded blank [] e = e
sentence_from-Halts t opening_end last bad_text decoded blank [] e = e
sentence_from-Halts t opening_end last no_file decoded blank [] e = e
sentence_from-Halts t opening_end last out_of_fuel decoded blank [] e = e
sentence_from-Halts t opening_end last ending decoded blank (r ∷ items) e =
    Halts-if (ltb decoded opening_end) _ _
      (sentence_from-Halts t opening_end last ending (decoded + r.size) blank items e)
      (Halts-if _ (ok r.start) _ tt
        (sentence_from-Halts t opening_end last ending (decoded + r.size) _ items e))

runes-Follows : (source : Source) (start : ℕ) → Follows start (runes source start)
unfolding runes
runes-Follows source start = read_runes-Follows _ source.escaped start _

locate_match-Halts :
    (t : Tables) (source : Source) (start : ℕ) (match : ℕ × ℕ) (state : QuoteState)
    → Halts (locate_match t source start match state)
unfolding locate_match
locate_match-Halts t source start (first, last) state =
    let rs = runes source start in
    Halts-bind _ _
      (locate_from-Halts t first last 0 rs.ending _ rs.items (runes-Follows source start).halting)
      (λ l e. tt)

abbrev end_of : Result (Span × Bool × QuoteState) → ℕ
end_of (ok found) = found.0.end
end_of (failed e) = 0

-- What a match ends at is behind the place where it was looked for.
locate_match-behind :
    (t : Tables) (source : Source) (start : ℕ) (match : ℕ × ℕ) (state : QuoteState)
    (found : Span × Bool × QuoteState)
    → 0 < match.1
    → locate_match t source start match state ≡ ok found
    → start < found.0.end
unfolding locate_match
locate_match-behind t source start (first, last) state found lt h =
    let rs = runes source start in
    let m = >>=-eq-ok (locate_from t first last 0 rs.ending _ rs.items) _ h in
    let q : m.0.span.end ≡ found.0.end = ap end_of m.2 in
    subst (λ n. start < n) q
      (locate_from-behind t start first last 0 rs.ending _ m.0 rs.items
        (runes-Follows source start).behind (inr lt) m.1)

-- The regular expression of the qualifier matches no empty text.
abbrev pub MatchesSome : Tables → Type 0
MatchesSome t = (items : List (ℕ × ℕ)) (a b : ℕ) → t.qualifier items ≡ some (a, b) → 0 < b

scan_match-Halts :
    (t : Tables) (source : Source) (cursor : ℕ) (state : QuoteState) (found : List Span)
    (match : Option (ℕ × ℕ)) (later : ℕ → QuoteState → List Span → Result (List Span))
    → ((a b : ℕ) → match ≡ some (a, b) → 0 < b)
    → ((next : ℕ) (state' : QuoteState) (found' : List Span)
        → cursor < next
        → Halts (later next state' found'))
    → Halts (scan_match t source cursor state found match later)
unfolding scan_match
scan_match-Halts t source cursor state found none later h k = tt
scan_match-Halts t source cursor state found (some (a, b)) later h k =
    Halts-bind (locate_match t source cursor (a, b) state) _
      (locate_match-Halts t source cursor (a, b) state)
      (λ m e. k m.0.end m.2 _ (locate_match-behind t source cursor (a, b) state m (h a b refl) e))

-- Fuel beyond the bytes that are left is enough.
scan_from-Halts :
    (t : Tables) (fuel : ℕ) (source : Source) (end cursor : ℕ) (state : QuoteState)
    (found : List Span)
    → MatchesSome t
    → end < fuel + cursor
    → 1 ≤ fuel
    → Halts (scan_from t fuel source end cursor state found)
unfolding scan_from
scan_from-Halts t zero source end cursor state found some_of lt le = absurd (omega (arith, le))
scan_from-Halts t (suc fuel) source end cursor state found some_of lt le =
    elim (Bool-cases (ltb cursor end)) [
      | inl e ↦ rw e (
          scan_match-Halts t source cursor state found _ (scan_from t fuel source end)
            (λ a b q. some_of _ a b q)
            (λ next state' found' further.
              scan_from-Halts t fuel source end next state' found' some_of
                (ground (arith, lt, further, e)) (ground (arith, lt, e))))
      | inr e ↦ rw e tt
    ]

scan_opening-Halts :
    (t : Tables) (source : Source) (match : Option (ℕ × ℕ))
    → MatchesSome t
    → Halts (scan_opening t source match)
unfolding scan_from sentence_end
scan_opening-Halts t source none some_of = tt
scan_opening-Halts t source (some match) some_of =
    let start = source.span.start in
    let rs = runes source start in
    Halts-bind (sentence_end t source match.1) _
      (sentence_from-Halts t match.1 source.span.end rs.ending 0 false rs.items
        (runes-Follows source start).halting)
      (λ end e.
        scan_from-Halts t (end - start + 1) source end start _ [] some_of (omega arith)
          (omega arith))

-- The scan of a text comes to its end.
pub scan_text-Halts : (t : Tables) (source : Source) → MatchesSome t → Halts (scan_text t source)
unfolding scan_text
scan_text-Halts t source some_of = scan_opening-Halts t source _ some_of
