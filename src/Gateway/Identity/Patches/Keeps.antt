-- ===== src/Gateway/Identity/Patches/Keeps.antt =====
-- internal/gateway/identity_json_stream.go: what `applyIdentityPatches` keeps.
use cliproxy_portal.Common.{
  ℕ, zero, suc, ◌+◌, ◌-◌, ◌≤◌, ◌<◌, ◌≡◌, refl, ap, ◌∙◌, ◌↔◌, inl, inr, Bool, true, false, ◌&&◌,
  ◌||◌, List, [], ◌∷◌, ◌++◌, arith, ltb, leb, if◌then◌else◌, Bool-cases, length, take, drop,
  length-append, length-take_of_le, length-drop, drop-drop, take-all,
}
use cliproxy_portal.Gateway.Identity.{Span, ok, >>=-eq-ok, failed-ne-ok}
use cliproxy_portal.Gateway.Identity.Text.{section}
use cliproxy_portal.Gateway.Identity.Patches.{apply_from, apply_patches}

-- Whether a place lies in one of the spans.
abbrev pub is_covered : List Span → ℕ → Bool
is_covered [] i = false
is_covered (span ∷ spans) i = (leb span.start i && ltb i span.end) || is_covered spans i

-- The bytes that lie in none of the spans; the first one's place is given.
unfoldable pub keep_from : ℕ → List Span → List ℕ → List ℕ
keep_from i spans [] = []
keep_from i spans (b ∷ bytes) =
    let rest = keep_from (suc i) spans bytes in if is_covered spans i then rest else b ∷ rest

-- Each span begins at the end of the one before or behind it, and the last one ends within the size.
abbrev pub IsChain : (cursor size : ℕ) → List Span → Type 0
IsChain cursor size [] = cursor ≤ size
IsChain cursor size (span ∷ spans) =
    (cursor ≤ span.start) × (span.start ≤ span.end) × IsChain span.end size spans

IsChain-covered :
    (cursor size i : ℕ) (spans : List Span)
    → IsChain cursor size spans
    → i < cursor
    → is_covered spans i ≡ false
IsChain-covered cursor size i [] h lt = refl
IsChain-covered cursor size i (span ∷ spans) h lt =
    ground (arith, IsChain-covered span.end size i spans h.2 (ground arith))

IsChain-le : (cursor size : ℕ) (spans : List Span) → IsChain cursor size spans → cursor ≤ size
IsChain-le cursor size [] h = h
IsChain-le cursor size (span ∷ spans) h =
    omega (arith, IsChain-le span.end size spans h.2, h.0, h.1)

-- Before the first span everything is kept.
keep_from-gap :
    (n cursor next size : ℕ) (spans : List Span) (bytes : List ℕ)
    → cursor + n ≡ next
    → IsChain next size spans
    → keep_from cursor spans bytes ≡ take n bytes ++ keep_from next spans (drop n bytes)
unfolding keep_from
keep_from-gap zero cursor next size spans bytes e h =
    let same : cursor ≡ next = omega arith in rw same refl
keep_from-gap (suc n) cursor next size spans [] e h = refl
keep_from-gap (suc n) cursor next size spans (b ∷ bytes) e h =
    rw (IsChain-covered next size cursor spans h (omega arith)) (
      ap (λ (l : List ℕ). b ∷ l)
        (keep_from-gap n (suc cursor) next size spans bytes (omega arith) h))

-- Within a span nothing is.
keep_from-span :
    (n cursor : ℕ) (span : Span) (spans : List Span) (bytes : List ℕ)
    → cursor + n ≡ span.end
    → span.start ≤ cursor
    → keep_from cursor (span ∷ spans) bytes ≡ keep_from span.end (span ∷ spans) (drop n bytes)
unfolding keep_from
keep_from-span zero cursor span spans bytes e h =
    let same : cursor ≡ span.end = omega arith in rw same refl
keep_from-span (suc n) cursor span spans [] e h = refl
keep_from-span (suc n) cursor span spans (b ∷ bytes) e h =
    let covered : (leb span.start cursor && ltb cursor span.end) ≡ true = ground arith in
    rw covered (keep_from-span n (suc cursor) span spans bytes (omega arith) (omega arith))

-- Behind a span it no longer counts.
keep_from-later :
    (cursor : ℕ) (span : Span) (spans : List Span) (bytes : List ℕ)
    → span.end ≤ cursor
    → keep_from cursor (span ∷ spans) bytes ≡ keep_from cursor spans bytes
unfolding keep_from
keep_from-later cursor span spans [] h = refl
keep_from-later cursor span spans (b ∷ bytes) h =
    let past : (leb span.start cursor && ltb cursor span.end) ≡ false = ground arith in
    rw (past, keep_from-later (suc cursor) span spans bytes (omega arith)) refl

keep_from-nil : (cursor : ℕ) (bytes : List ℕ) → keep_from cursor [] bytes ≡ bytes
unfolding keep_from
keep_from-nil cursor [] = refl
keep_from-nil cursor (b ∷ bytes) = ap (λ (l : List ℕ). b ∷ l) (keep_from-nil (suc cursor) bytes)

keep_from-cons :
    (cursor size : ℕ) (span : Span) (spans : List Span) (source : List ℕ)
    → IsChain cursor size (span ∷ spans)
    → keep_from cursor (span ∷ spans) (drop cursor source)
      ≡ section source cursor span.start ++ keep_from span.end spans (drop span.end source)
keep_from-cons cursor size span spans source h =
    keep_from-gap (span.start - cursor) cursor span.start size (span ∷ spans) (drop cursor source)
      (omega (arith, h.0)) (omega arith, h.1, h.2)
    ∙ ap (λ (l : List ℕ). section source cursor span.start ++ l)
        (ap (keep_from span.start (span ∷ spans)) (drop-drop cursor span.start source h.0)
          ∙ keep_from-span (span.end - span.start) span.start span spans (drop span.start source)
              (omega (arith, h.1)) (omega arith)
          ∙ keep_from-later span.end span spans _ (omega arith)
          ∙ ap (keep_from span.end spans) (drop-drop span.start span.end source h.1))

abbrev pub removed : List Span → ℕ
removed [] = 0
removed (span ∷ spans) = removed spans + (span.end - span.start)

apply_from-keeps :
    (source : List ℕ) (cursor : ℕ) (spans : List Span)
    → IsChain cursor (length source) spans
    → apply_from source cursor spans
      ≡ ok (keep_from cursor spans (drop cursor source), removed spans)
unfolding apply_from
apply_from-keeps source cursor [] h =
    rw
      (
        keep_from-nil cursor (drop cursor source),
        take-all (length source - cursor) (drop cursor source)
            (omega (arith, length-drop cursor source)),
      )
      refl
apply_from-keeps source cursor (span ∷ spans) h =
    let low : ltb span.start cursor ≡ false = ground (arith, h.0) in
    let fits = IsChain-le span.end (length source) spans h.2 in
    let high : ltb (length source) span.end ≡ false = ground (arith, fits) in
    let long : ltb span.end span.start ≡ false = ground (arith, h.1) in
    rw
      (
        low,
        long,
        high,
        apply_from-keeps source span.end spans h.2,
        keep_from-cons cursor (length source) span spans source h,
      )
      refl

keep_from-length :
    (source : List ℕ) (cursor : ℕ) (spans : List Span)
    → IsChain cursor (length source) spans
    → length (keep_from cursor spans (drop cursor source)) + removed spans ≡ length source - cursor
keep_from-length source cursor [] h =
    rw (keep_from-nil cursor (drop cursor source)) (omega (arith, length-drop cursor source))
keep_from-length source cursor (span ∷ spans) h =
    rw
      (
        keep_from-cons cursor (length source) span spans source h,
        length-append (section source cursor span.start)
            (keep_from span.end spans (drop span.end source)),
      )
      (let cut : length (section source cursor span.start) ≡ span.start - cursor =
          length-take_of_le (span.start - cursor) (drop cursor source) (
            omega (
              arith,
              length-drop cursor source,
              h.0,
              h.1,
              IsChain-le span.end (length source) spans h.2,
            )) in
        omega (
          arith,
          cut,
          keep_from-length source span.end spans h.2,
          h.0,
          h.1,
          IsChain-le span.end (length source) spans h.2,
        ))

apply_from-IsChain :
    (source : List ℕ) (cursor : ℕ) (spans : List Span) (out : List ℕ × ℕ)
    → cursor ≤ length source
    → apply_from source cursor spans ≡ ok out
    → IsChain cursor (length source) spans
unfolding apply_from
apply_from-IsChain source cursor [] out le h = le
apply_from-IsChain source cursor (span ∷ spans) out le h =
    elim (Bool-cases
      (ltb span.start cursor || ltb span.end span.start || ltb (length source) span.end)) [
        | inl bad ↦ failed-ne-ok (rw bad at h)
        | inr good ↦
            let (rest, e, last) = >>=-eq-ok (apply_from source span.end spans) _ (rw good at h) in
            (
              ground arith,
              ground arith,
              apply_from-IsChain source span.end spans rest (ground arith) e,
            )
      ]

-- Where the output's file is created, the patches apply exactly when they lie within the source,
-- one behind the other; the output then has the bytes of the source that lie in no patch, in their
-- order, and the size is their number.
pub apply_patches_iff :
    (source : List ℕ) (patches : List Span) (bytes : List ℕ) (size : ℕ)
    → (apply_patches true source patches ≡ ok (bytes, size))
      ↔ IsChain 0 (length source) patches
        × (bytes ≡ keep_from 0 patches source)
        × (size ≡ length bytes)
unfolding apply_patches
apply_patches_iff source patches bytes size = (sound, complete)
  where
    sound :
        apply_patches true source patches ≡ ok (bytes, size)
        → IsChain 0 (length source) patches
          × (bytes ≡ keep_from 0 patches source)
          × (size ≡ length bytes)
    sound h =
        let (out, e, last) = >>=-eq-ok (apply_from source 0 patches) _ h in
        let chain = apply_from-IsChain source 0 patches out (omega arith) e in
        let done = rw (apply_from-keeps source 0 patches chain) at h in
        let total = keep_from-length source 0 patches chain in
        let kept : bytes ≡ keep_from 0 patches source = cc in
        let counted : size ≡ length source - removed patches = cc in
        (chain, kept, counted ∙ rw kept (omega (arith, total)))

    complete :
        IsChain 0 (length source) patches
          × (bytes ≡ keep_from 0 patches source)
          × (size ≡ length bytes)
        → apply_patches true source patches ≡ ok (bytes, size)
    complete (chain, same, count) = rw (apply_from-keeps source 0 patches chain) (
        let total = keep_from-length source 0 patches chain in
        let counted : length source - removed patches ≡ size =
          rw (count, same) (omega (arith, total)) in
        cc)
