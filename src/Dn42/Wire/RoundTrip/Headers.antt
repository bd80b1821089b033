-- ===== src/Dn42/Wire/RoundTrip/Headers.antt =====
-- The header of an attribute leads back to its value.
use landscape_rill.Base.{
  ℕ, ◌+◌, ◌^◌, ◌≡◌, ◌<◌, refl, ap, ◌∙◌, Bool, true, false, List, [], ◌∷◌, ◌++◌, length,
  length-append, drop, get_or, ltb, Result, ok, ◌>>=◌, arith, Bool-cases, inl, inr,
}
use landscape_rill.Base.Bytes.{be_bytes, be_value-be_bytes}
use landscape_rill.Base.Slices.{drop-append_at, take-append_at, drop-add}
use landscape_rill.Dn42.Wire.{Failure, u16_at}
use landscape_rill.Dn42.Wire.Read.{
  is_long, AttrItem, decode_value, is_extended, is_optional, attr_of, decode_attr,
}
use landscape_rill.Dn42.Wire.Write.{attr_bytes}

-- The item of a value, and the rest.
abbrev pub valued : ℕ → Bool → List ℕ → List ℕ → Result Failure (AttrItem × List ℕ)
valued ty optional value rest = decode_value ty optional value >>= λ item. ok (item, rest)

attr_of-value :
    (head value rest : List ℕ)
    → (let buf = head ++ (value ++ rest) in
        attr_of (length head) (length value) buf
        ≡ valued (get_or buf 1 0) (is_optional (get_or buf 0 0)) value rest)
unfolding attr_of
attr_of-value head value rest =
    let h = length head in
    let n = length value in
    let buf = head ++ (value ++ rest) in
    let long : is_long (h + n) buf ≡ true =
      ground (arith, length-append head (value ++ rest), length-append value rest) in
    let body : drop h buf ≡ value ++ rest = drop-append_at head (value ++ rest) h refl in
    let left : drop (h + n) buf ≡ rest =
      drop-add h n buf ∙ ap (λ b. drop n b) body ∙ drop-append_at value rest n refl in
    rw (long, left, body, take-append_at value rest n refl)

is_extended-add : (flags : ℕ) → is_extended flags ≡ false → is_extended (flags + 0x10) ≡ true
is_extended-add flags h = ground (arith, h)

is_optional-add :
    (flags : ℕ) → is_extended flags ≡ false → is_optional (flags + 0x10) ≡ is_optional flags
is_optional-add flags h = ground (arith, h)

decode_attr_short :
    (ty flags : ℕ) (value rest : List ℕ)
    → is_extended flags ≡ false
    → decode_attr (flags ∷ ty ∷ length value ∷ (value ++ rest))
      ≡ valued ty (is_optional flags) value rest
unfolding decode_attr
decode_attr_short ty flags value rest plain =
    let buf = flags ∷ ty ∷ length value ∷ (value ++ rest) in
    let two : is_long 2 buf ≡ true = ground arith in
    let three : is_long 3 buf ≡ true = ground arith in
    rw (plain, two, three) (attr_of-value (flags ∷ ty ∷ length value ∷ []) value rest)

decode_attr_long :
    (ty flags : ℕ) (value rest : List ℕ)
    → is_extended flags ≡ true
    → length value < 2 ^ 16
    → decode_attr (flags ∷ ty ∷ ((be_bytes 2 (length value) ++ value) ++ rest))
      ≡ valued ty (is_optional flags) value rest
unfolding decode_attr
decode_attr_long ty flags value rest extended fits =
    let n = length value in
    let buf = flags ∷ ty ∷ ((be_bytes 2 n ++ value) ++ rest) in
    let two : is_long 2 buf ≡ true = ground arith in
    let four : is_long 4 buf ≡ true = ground arith in
    let size : u16_at 2 buf ≡ n = be_value-be_bytes 2 n fits in
    rw (extended, two, four, size) (attr_of-value (flags ∷ ty ∷ be_bytes 2 n) value rest)

-- A round of `decode_attrs` takes the header and the value, and no byte behind them.
pub decode_attr-attr_bytes :
    (ty flags : ℕ) (value rest : List ℕ)
    → is_extended flags ≡ false
    → length value < 2 ^ 16
    → decode_attr (attr_bytes (ty, flags, value) ++ rest) ≡ valued ty (is_optional flags) value rest
decode_attr-attr_bytes ty flags value rest plain fits = elim (Bool-cases (ltb 255 (length value))) [
  | inl h ↦
      rw (h, decode_attr_long ty (flags + 0x10) value rest (is_extended-add flags plain) fits)
        (ap (λ o. valued ty o value rest) (is_optional-add flags plain))
  | inr h ↦ rw h (decode_attr_short ty flags value rest plain)
]
