-- ===== src/Dn42/Wire/Read/Ends.antt =====
-- Every loop of `decode` ends.
use landscape_rill.Base.{
  ℕ, zero, suc, ◌+◌, ◌*◌, ◌≢◌, ◌<◌, ◌≤◌, Bool, true, false, Option, none, some, List, [], ◌∷◌,
  length, drop, get_or, ◌==◌, length-drop, if◌then◌else◌, Result, ok, err, ◌>>=◌, ◌>>◌, guard,
  arith,
}
use landscape_rill.Route.Prefix.{Prefix}
use landscape_rill.Dn42.Wire.{
  Failure, refused, panicked, out_of_fuel, WireError, require, many, while_left, octets_of, u16_at,
}
use landscape_rill.Dn42.Wire.Read.{
  built, read_nlri, read_nlris, decode_segment, decode_segments_exact, or_else, decode_next_hop,
  decode_mp_reach, decode_mp_unreach, AttrItem, decode_value, attr_of, hdr_of, decode_attr,
  is_extended, decode_attrs, decode_update, decode_tlv, decode_parameter, decode_open, decode_body,
  decode,
}

-- A run that keeps within its fuel, and `P` holds of its value if it has one.
pub data Ends {ℓ} {A : Type ℓ} (P : A → Type 0) : Result Failure A → Type ℓ where
  value : {a : A} → P a → Ends P (ok a)
  refusal : {e : WireError} → Ends P (err (refused e))
  panic : Ends P (err panicked)

abbrev pub Any {ℓ} : {A : Type ℓ} → A → Type 0
Any a = Unit

module _ {ℓ} {A : Type ℓ} {P : A → Type 0} where
  pub Ends-ne_out_of_fuel : {r : Result Failure A} → Ends P r → r ≢ err out_of_fuel
  Ends-ne_out_of_fuel (value h) = cc
  Ends-ne_out_of_fuel refusal = cc
  Ends-ne_out_of_fuel panic = cc

  Ends-require :
      (b : Bool) (e : WireError) {r : Result Failure A} → Ends P r → Ends P (require b e >> r)
  Ends-require true e h = h
  Ends-require false e h = refusal

  Ends-guard : (b : Bool) {r : Result Failure A} → Ends P r → Ends P (guard b panicked >> r)
  Ends-guard true h = h
  Ends-guard false h = panic

  Ends-if : (b : Bool) {x y : Result Failure A} → Ends P x → Ends P y → Ends P (if b then x else y)
  Ends-if true h k = h
  Ends-if false h k = k

  Ends-or_else : {r other : Result Failure A} → Ends P r → Ends P other → Ends P (or_else r other)
  Ends-or_else (value h) k = value h
  Ends-or_else refusal k = k
  Ends-or_else panic k = panic

  Ends-bind {κ} :
      {B : Type κ} {Q : B → Type 0} {r : Result Failure A} {f : A → Result Failure B}
      → Ends P r
      → ((a : A) → P a → Ends Q (f a))
      → Ends Q (r >>= f)
  Ends-bind (value {a} h) k = k a h
  Ends-bind refusal k = refusal
  Ends-bind panic k = panic

Ends-Any {ℓ} : {A : Type ℓ} {a : A} → Ends {A = A} Any (ok a)
Ends-Any = value tt

-- A step behind a run of which nothing is asked but that it ends.
Ends-then {ℓ κ} :
    {A : Type ℓ} {B : Type κ} {Q : B → Type 0} {r : Result Failure A} {f : A → Result Failure B}
    → Ends {A = A} Any r
    → ((a : A) → Ends Q (f a))
    → Ends Q (r >>= f)
Ends-then h k = Ends-bind h λ a _. k a

ruleset ending =
    (Ends-require, Ends-guard, Ends-if, Ends-or_else, Ends-then, Ends-Any, refusal, panic)

-- A round leaves less than it was given.
abbrev Shorter {ℓ} : {A : Type ℓ} → List ℕ → A × List ℕ → Type 0
Shorter buf r = length r.1 < length buf

abbrev Advances {ℓ} : {A : Type ℓ} → (List ℕ → Result Failure (A × List ℕ)) → Type ℓ
Advances step = (b : ℕ) (bs : List ℕ) → Ends (Shorter (b ∷ bs)) (step (b ∷ bs))

module _ {ℓ} {A : Type ℓ} (step : List ℕ → Result Failure (A × List ℕ))
    (advances : Advances step) where
  many-Ends : (f : ℕ) (buf : List ℕ) → length buf ≤ f → Ends {A = List A} Any (many step f buf)
  unfolding many
  many-Ends f [] h = value tt
  many-Ends zero (b ∷ bs) h = ground arith
  many-Ends (suc f) (b ∷ bs) h =
      Ends-bind (advances b bs)
        λ r less. Ends-bind (many-Ends f r.1 (omega (arith, less, h))) λ found _. value tt

  while_left-Ends : (buf : List ℕ) → Ends {A = List A} Any (while_left step buf)
  while_left-Ends buf = many-Ends (length buf) buf (omega arith)

drop_shorter : (b : ℕ) (bs : List ℕ) (n : ℕ) → 0 < n → length (drop n (b ∷ bs)) < length (b ∷ bs)
drop_shorter b bs n h = omega (arith, length-drop n (b ∷ bs), h)

built-Ends {ℓ} :
    {A : Type ℓ} {P : Prefix × A → Type 0} (o : Option Prefix) (rest : A)
    → ((p : Prefix) → P (p, rest))
    → Ends P (built o rest)
built-Ends none rest h = refusal
built-Ends (some p) rest h = value (h p)

read_nlri-Advances : (v4 : Bool) → Advances (read_nlri v4)
unfolding read_nlri
read_nlri-Advances v4 b bs =
    let less = drop_shorter b bs (1 + octets_of b) (omega arith) in
    search (ending, built-Ends, less)

read_nlris-Ends : (v4 : Bool) (buf : List ℕ) → Ends Any (read_nlris v4 buf)
unfolding read_nlris
read_nlris-Ends v4 buf = while_left-Ends (read_nlri v4) (read_nlri-Advances v4) buf

decode_segment-Advances : (wide : Bool) → Advances (decode_segment wide)
unfolding decode_segment
decode_segment-Advances wide b bs =
    let less =
      drop_shorter b bs (2 + get_or (b ∷ bs) 1 0 * (if wide then 4 else 2)) (omega arith) in
    search (ending, value, less)

decode_segments-Ends : (wide : Bool) (buf : List ℕ) → Ends Any (decode_segments_exact wide buf)
unfolding decode_segments_exact
decode_segments-Ends wide buf =
    while_left-Ends (decode_segment wide) (decode_segment-Advances wide) buf

decode_next_hop-Ends : (bytes : List ℕ) → Ends Any (decode_next_hop bytes)
unfolding decode_next_hop
decode_next_hop-Ends bytes = search ending

decode_mp_reach-Ends : (v : List ℕ) → Ends Any (decode_mp_reach v)
unfolding decode_mp_reach
decode_mp_reach-Ends v = search (ending, decode_next_hop-Ends, read_nlris-Ends) depth 14

decode_mp_unreach-Ends : (v : List ℕ) → Ends Any (decode_mp_unreach v)
unfolding decode_mp_unreach
decode_mp_unreach-Ends v = search (ending, read_nlris-Ends) depth 14

decode_value-Ends : (ty : ℕ) (optional : Bool) (v : List ℕ) → Ends Any (decode_value ty optional v)
unfolding decode_value
decode_value-Ends ty optional v =
    search (ending, decode_segments-Ends, decode_mp_reach-Ends, decode_mp_unreach-Ends) depth 14

attr_of-Ends :
    (hdr len b : ℕ) (bs : List ℕ) → 0 < hdr → Ends (Shorter (b ∷ bs)) (attr_of hdr len (b ∷ bs))
unfolding attr_of
attr_of-Ends hdr len b bs h =
    let left : (item : AttrItem) → Ends (Shorter (b ∷ bs)) (ok (item, drop (hdr + len) (b ∷ bs))) =
      λ item. value (drop_shorter b bs (hdr + len) (omega (arith, h))) in
    search (ending, decode_value-Ends, left)

decode_attr-Advances : Advances decode_attr
unfolding decode_attr
decode_attr-Advances b bs =
    let some_bytes : 0 < hdr_of b = ground arith in
    let rest =
      attr_of-Ends (hdr_of b) (if is_extended b then u16_at 2 (b ∷ bs) else get_or (b ∷ bs) 2 0) b
        bs some_bytes in
    search (ending, rest)

decode_attrs-Ends : (buf : List ℕ) → Ends Any (decode_attrs buf)
unfolding decode_attrs
decode_attrs-Ends buf = search (ending, while_left-Ends decode_attr decode_attr-Advances)

decode_update-Ends : (body : List ℕ) → Ends Any (decode_update body)
unfolding decode_update
decode_update-Ends body = search (ending, read_nlris-Ends, decode_attrs-Ends) depth 14

decode_tlv-Advances : Advances decode_tlv
unfolding decode_tlv
decode_tlv-Advances b bs =
    let less = drop_shorter b bs (2 + get_or (b ∷ bs) 1 0) (omega arith) in
    search (ending, value, less)

decode_parameter-Advances : Advances decode_parameter
unfolding decode_parameter
decode_parameter-Advances b bs = Ends-bind (decode_tlv-Advances b bs) λ p less.
    Ends-if (p.0.0 == 2)
      (Ends-bind (while_left-Ends decode_tlv decode_tlv-Advances p.0.1) λ caps _. value less)
      (value less)

decode_open-Ends : (body : List ℕ) → Ends Any (decode_open body)
unfolding decode_open
decode_open-Ends body = search (ending, while_left-Ends decode_parameter decode_parameter-Advances)

decode_body-Ends : (ty : ℕ) (body : List ℕ) → Ends Any (decode_body ty body)
unfolding decode_body
decode_body-Ends ty body = search (ending, decode_open-Ends, decode_update-Ends) depth 14

-- `decode` ends on every input: no loop of it runs out of its fuel, a round for each byte.
pub decode-ends : (buf : List ℕ) → decode buf ≢ err out_of_fuel
unfolding decode
decode-ends buf =
    let ends : Ends Any (decode buf) = search (ending, decode_body-Ends) in Ends-ne_out_of_fuel ends
