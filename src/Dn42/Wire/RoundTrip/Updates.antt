-- ===== src/Dn42/Wire/RoundTrip/Updates.antt =====
-- An UPDATE message is read back as it was written.
use landscape_rill.Base.{
  ℕ, ◌+◌, ◌^◌, ◌≡◌, ◌<◌, refl, sym, ap, ◌∙◌, true, ◌||◌, List, ◌++◌, All, length, length-append,
  take, drop, ltb, Result, ok, err, arith, Bool-cases, inl, inr,
}
use landscape_rill.Base.Bytes.{be_bytes, be_value, be_value-be_bytes}
use landscape_rill.Base.Slices.{drop-append_at, take-append_at, drop-add}
use landscape_rill.Dn42.Message.{UpdateMsg, update}
use landscape_rill.Dn42.Wire.{WireError, bad_update, too_long, type_update, u16_at}
use landscape_rill.Dn42.Wire.Read.{is_long, decode_update}
use landscape_rill.Dn42.Wire.Write.{any_v6, write_nlris, write_attrs, update_attrs, update_body}
use landscape_rill.Dn42.Wire.RoundTrip.Routes.{IsRoute, read_nlris-write_nlris}
use landscape_rill.Dn42.Wire.RoundTrip.Attrs.{IsAttr}
use landscape_rill.Dn42.Wire.RoundTrip.AttrLists.{settled, decode_attrs-write_attrs}

-- An UPDATE of canonical IPv4 prefixes and of attributes that fit their fields.
pub record IsUpdate (m : UpdateMsg) : Type 0 where
  pub withdrawn_routes : All (IsRoute true) m.withdrawn
  pub attributes : All IsAttr m.attrs
  pub announced_routes : All (IsRoute true) m.announced

abbrev update_bytes : List ℕ → List ℕ → List ℕ → List ℕ
update_bytes w attrs nlri =
    (be_bytes 2 (length w) ++ w) ++ (be_bytes 2 (length attrs) ++ (attrs ++ nlri))

-- What was there when an UPDATE was written whole.
record Written (m : UpdateMsg) (ty : ℕ) : Type 0 where
  attrs : List ℕ
  wrote : write_attrs m.attrs ≡ ok attrs
  few_routes : length (write_nlris m.withdrawn) < 2 ^ 16
  few_attrs : length attrs < 2 ^ 16
  is_update : ty ≡ type_update
  body : (update_body m).0 ≡ update_bytes (write_nlris m.withdrawn) attrs (write_nlris m.announced)

written_attrs :
    (m : UpdateMsg) (w : List ℕ) (ty : ℕ) (r : Result WireError (List ℕ))
    → (update_attrs m w r).1 ≡ ok ty
    → (attrs : List ℕ) × (r ≡ ok attrs)
      × (length attrs < 2 ^ 16)
      × (ty ≡ type_update)
      × ((update_attrs m w r).0 ≡ update_bytes w attrs (write_nlris m.announced))
written_attrs m w ty (err e) h = cc
written_attrs m w ty (ok attrs) h = elim (Bool-cases (ltb 65535 (length attrs))) [
  | inl long ↦ let lost : (update_attrs m w (ok attrs)).1 ≡ err too_long = rw long in cc
  | inr few ↦
      let done : update_attrs m w (ok attrs)
          ≡ (update_bytes w attrs (write_nlris m.announced), ok type_update) =
        rw few in
      let kind : Path (Result WireError ℕ) (ok type_update) (ok ty) =
        sym (ap (λ b. b.1) done) ∙ h in
      (attrs, refl, ground (arith, few), cc, ap (λ b. b.0) done)
]

update_body-Written : (m : UpdateMsg) (ty : ℕ) → (update_body m).1 ≡ ok ty → Written m ty
unfolding update_body
update_body-Written m ty h =
    let w = write_nlris m.withdrawn in
    elim (Bool-cases (any_v6 m.withdrawn || any_v6 m.announced)) [
      | inl six ↦ let lost : (update_body m).1 ≡ err bad_update = rw six in cc
      | inr four ↦ elim (Bool-cases (ltb 65535 (length w))) [
        | inl long ↦ let lost : (update_body m).1 ≡ err too_long = rw (four, long) in cc
        | inr few ↦
            let e : update_body m ≡ update_attrs m w (write_attrs m.attrs) = rw (four, few) in
            let (attrs, wrote, few_attrs, is_update, body) =
              written_attrs m w ty (write_attrs m.attrs) (sym (ap (λ b. b.1) e) ∙ h) in
            record {
              attrs = attrs;
              wrote = wrote;
              few_routes = ground (arith, few);
              few_attrs = few_attrs;
              is_update = is_update;
              body = ap (λ b. b.0) e ∙ body;
            }
      ]
    ]

decode_update_lem :
    (m : UpdateMsg) (attrs : List ℕ)
    → IsUpdate m
    → write_attrs m.attrs ≡ ok attrs
    → length (write_nlris m.withdrawn) < 2 ^ 16
    → length attrs < 2 ^ 16
    → decode_update (update_bytes (write_nlris m.withdrawn) attrs (write_nlris m.announced))
      ≡ ok (update (record m { attrs = settled m.attrs }))
unfolding decode_update
decode_update_lem m attrs is wrote few_routes few_attrs =
    let w = write_nlris m.withdrawn in
    let nlri = write_nlris m.announced in
    let k = length w in
    let a = length attrs in
    let tail = be_bytes 2 a ++ (attrs ++ nlri) in
    let buf = update_bytes w attrs nlri in
    let size = length-append w tail in
    let more = length-append attrs nlri in
    let four : is_long 4 buf ≡ true = ground (arith, size) in
    let routes : is_long (2 + k + 2) buf ≡ true = ground (arith, size) in
    let all : is_long (2 + k + 2 + a) buf ≡ true = ground (arith, size, more) in
    let wlen : u16_at 0 buf ≡ k = be_value-be_bytes 2 k few_routes in
    let behind : drop (2 + k) buf ≡ tail = drop-add 2 k buf ∙ drop-append_at w tail k refl in
    let alen : u16_at (2 + k) buf ≡ a =
      ap (λ b. be_value (take 2 b)) behind ∙ be_value-be_bytes 2 a few_attrs in
    let four_is : 4 + k ≡ (2 + k) + 2 = omega arith in
    let values : drop (4 + k) buf ≡ attrs ++ nlri =
      ap (λ n. drop n buf) four_is ∙ drop-add (2 + k) 2 buf ∙ ap (λ b. drop 2 b) behind in
    let left : drop (4 + k + a) buf ≡ nlri =
      drop-add (4 + k) a buf ∙ ap (λ b. drop a b) values ∙ drop-append_at attrs nlri a refl in
    rw (
      four,
      wlen,
      routes,
      alen,
      all,
      values,
      left,
      take-append_at attrs nlri a refl,
      take-append_at w tail k refl,
      read_nlris-write_nlris true m.withdrawn is.withdrawn_routes,
      decode_attrs-write_attrs m.attrs attrs is.attributes wrote few_attrs,
      read_nlris-write_nlris true m.announced is.announced_routes,
    )

-- The body of an UPDATE that was written whole is read back, its attributes in their settled order.
pub decode_update-update_body :
    (m : UpdateMsg) (ty : ℕ)
    → IsUpdate m
    → (update_body m).1 ≡ ok ty
    → (ty ≡ type_update)
      × (decode_update (update_body m).0 ≡ ok (update (record m { attrs = settled m.attrs })))
decode_update-update_body m ty is h =
    let w = update_body-Written m ty h in
    (
      w.is_update,
      ap decode_update w.body ∙ decode_update_lem m w.attrs is w.wrote w.few_routes w.few_attrs,
    )
