-- ===== src/Gateway/Body/Limits.antt =====
-- internal/gateway/resource_control.go: what a body that passes has been checked for.
use cliproxy_portal.Common.{
  ℕ, ◌+◌, ◌≤◌, ◌≡◌, refl, sym, ◌↔◌, inl, inr, Bool, true, false, List, [], ◌∷◌, arith, ltb,
  Bool-cases, length, take, length-take_of_le,
}
use cliproxy_portal.Gateway.Body.{
  Source, Decoders, Encoding, Opened, skipped, unsupported, invalid, opened, open_layer,
  copy_limited, store_copy, create, decode_layer, decode_layers, Prepared, rejected, ready,
  prepare_body, reverse_onto,
}

-- Every layer, from the last encoding on, opens, can be read to its end and has at most the
-- limit's bytes.
pub data Unpacks (d : Decoders) (limit : ℕ) : List Encoding → List ℕ → Type 0 where
  done : {b : List ℕ} → Unpacks d limit [] b
  skip :
      {e : Encoding} {es : List Encoding} {b : List ℕ}
      → open_layer d e b ≡ skipped
      → Unpacks d limit es b
      → Unpacks d limit (e ∷ es) b
  layer :
      {e : Encoding} {es : List Encoding} {b : List ℕ} (s : Source)
      → open_layer d e b ≡ opened s
      → s.fails ≡ false
      → length s.bytes ≤ limit
      → Unpacks d limit es s.bytes
      → Unpacks d limit (e ∷ es) b

-- A copy that is stored has come to its end, without an error, within the limit.
store-ready :
    (limit : ℕ) (s : Source) (next : List ℕ → Prepared) (w : List ℕ)
    → store_copy limit (copy_limited limit s) next ≡ ready w
    → (s.fails ≡ false) × (length s.bytes ≤ limit) × (next s.bytes ≡ ready w)
unfolding store_copy copy_limited
store-ready limit s next w h = elim (Bool-cases (ltb limit (length s.bytes))) [
  | inl long ↦
      let cut : length (take (limit + 1) s.bytes) ≡ limit + 1 =
        length-take_of_le (limit + 1) s.bytes (ground arith) in
      let over : ltb limit (length (take (limit + 1) s.bytes)) ≡ true = ground arith in
      let bad : rejected 413 ≡ ready w = rw (long, over) at h in absurd (ground arith)
  | inr fits ↦ elim (Bool-cases s.fails) [
    | inl f ↦ let bad : rejected 400 ≡ ready w = rw (fits, f) at h in absurd (ground arith)
    | inr f ↦ (f, ground arith, rw (fits, f, fits) at h)
  ]
]

store-fits :
    (limit : ℕ) (s : Source) (next : List ℕ → Prepared)
    → s.fails ≡ false
    → length s.bytes ≤ limit
    → store_copy limit (copy_limited limit s) next ≡ next s.bytes
unfolding store_copy copy_limited
store-fits limit s next f le =
    let fits : ltb limit (length s.bytes) ≡ false = ground arith in rw (fits, f, fits) refl

layer-Unpacks :
    (d : Decoders) (limit : ℕ) (wire w : List ℕ) (e : Encoding) (es : List Encoding)
    (files : List Bool) (b : List ℕ) (o : Opened)
    (later : (files : List Bool) (b : List ℕ)
      → decode_layers d limit wire es files b ≡ ready w
      → (wire ≡ w) × Unpacks d limit es b)
    → open_layer d e b ≡ o
    → decode_layer limit o files b (decode_layers d limit wire es) ≡ ready w
    → (wire ≡ w) × Unpacks d limit (e ∷ es) b
unfolding decode_layer
layer-Unpacks d limit wire w e es files b skipped later q k =
    let (same_wire, rest) = later files b k in (same_wire, skip q rest)
layer-Unpacks d limit wire w e es files b unsupported later q k = absurd (ground arith)
layer-Unpacks d limit wire w e es files b invalid later q k = absurd (ground arith)
layer-Unpacks d limit wire w e es files b (opened s) later q k =
    elim (Bool-cases (create files).0) [
      | inl can ↦
          let (f, le, k') =
            store-ready limit s (decode_layers d limit wire es (create files).1) w (rw can at k) in
          let (same_wire, rest) = later (create files).1 s.bytes k' in
          (same_wire, layer s q f le rest)
      | inr cannot ↦ let bad : rejected 503 ≡ ready w = rw cannot at k in absurd (ground arith)
    ]

layers-Unpacks :
    (d : Decoders) (limit : ℕ) (wire w : List ℕ) (es : List Encoding) (files : List Bool)
    (b : List ℕ)
    → decode_layers d limit wire es files b ≡ ready w
    → (wire ≡ w) × Unpacks d limit es b
unfolding decode_layers
layers-Unpacks d limit wire w [] files b h = (ground arith, done)
layers-Unpacks d limit wire w (e ∷ es) files b h =
    layer-Unpacks d limit wire w e es files b (open_layer d e b)
      (λ fs c k. layers-Unpacks d limit wire w es fs c k) refl h

Unpacks-layers :
    (d : Decoders) (limit : ℕ) (wire : List ℕ) (es : List Encoding) (b : List ℕ)
    → Unpacks d limit es b
    → decode_layers d limit wire es [] b ≡ ready wire
unfolding decode_layers decode_layer
Unpacks-layers d limit wire [] b done = refl
Unpacks-layers d limit wire (e ∷ es) b (skip q u) = rw q (Unpacks-layers d limit wire es b u)
Unpacks-layers d limit wire (e ∷ es) b (layer s q f le u) =
    rw (q, store-fits limit s (decode_layers d limit wire es []) f le)
      (Unpacks-layers d limit wire es s.bytes u)

-- A body passes only when it comes to its end within the limit, names at most three encodings, and
-- unpacks through them with every layer within the limit; what is forwarded is then the body as
-- it came on the wire.
pub prepare_sound :
    (d : Decoders) (limit : ℕ) (es : List Encoding) (files : List Bool) (body : Source) (w : List ℕ)
    → prepare_body d limit es files body ≡ ready w
    → (w ≡ body.bytes)
      × (body.fails ≡ false)
      × (length body.bytes ≤ limit)
      × (length es ≤ 3)
      × Unpacks d limit (reverse_onto es []) body.bytes
unfolding prepare_body
prepare_sound d limit es files body w h = elim (Bool-cases (create files).0) [
  | inl can ↦
      let (f, le, k) = store-ready limit body _ w (rw can at h) in
      elim (Bool-cases (ltb 3 (length es))) [
        | inl many ↦ let bad : rejected 415 ≡ ready w = rw many at k in absurd (ground arith)
        | inr few ↦
            let (same_wire, u) =
              layers-Unpacks d limit body.bytes w (reverse_onto es []) (create files).1 body.bytes
                (rw few at k) in
            (sym same_wire, f, le, ground arith, u)
      ]
  | inr cannot ↦ let bad : rejected 503 ≡ ready w = rw cannot at h in absurd (ground arith)
]

-- Where every file can be created, a body passes exactly when it comes to its end within the
-- limit, names at most three encodings, and unpacks through them with every layer within the
-- limit.
pub prepare_iff :
    (d : Decoders) (limit : ℕ) (es : List Encoding) (body : Source)
    → (prepare_body d limit es [] body ≡ ready body.bytes)
      ↔ (body.fails ≡ false)
        × (length body.bytes ≤ limit)
        × (length es ≤ 3)
        × Unpacks d limit (reverse_onto es []) body.bytes
unfolding prepare_body
prepare_iff d limit es body = (
  λ h. let (w, f, le, few, u) = prepare_sound d limit es [] body body.bytes h in (f, le, few, u),
  λ a.
      let (f, le, low, u) = a in
      let few : ltb 3 (length es) ≡ false = ground arith in
      rw (store-fits limit body _ f le, few)
        (Unpacks-layers d limit body.bytes (reverse_onto es []) body.bytes u),
)
