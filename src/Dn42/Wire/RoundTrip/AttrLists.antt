-- ===== src/Dn42/Wire/RoundTrip/AttrLists.antt =====
-- A list of attributes is read back with its communities gathered behind the others.
use landscape_rill.Base.{
  ℕ, ◌^◌, ◌≡◌, ◌<◌, refl, sym, ap, ◌∙◌, List, [], ◌∷◌, ◌++◌, All, length, length-append, Result, ok,
  err, ◌>>=◌, arith,
}
use mathlib.Core.Path.{subst}
use landscape_rill.Dn42.Message.{
  PathAttr, origin, as_path, as4_path, next_hop, communities, mp_reach, mp_unreach,
}
use landscape_rill.Dn42.Wire.{WireError}
use landscape_rill.Dn42.Wire.Read.{attrs_of, tags_of, with_tags, decode_attr, decode_attrs}
use landscape_rill.Dn42.Wire.Write.{write_attr, write_attrs}
use landscape_rill.Dn42.Wire.RoundTrip.Loops.{write_all, Reads, map_to, while_left-write_all}
use landscape_rill.Dn42.Wire.RoundTrip.Attrs.{
  IsAttr, item_of, length-write_attr, decode_attr-write_attr,
}

-- The attributes but for the communities.
unfoldable pub others : List PathAttr → List PathAttr
others [] = []
others (communities cs ∷ rest) = others rest
others (origin o ∷ rest) = origin o ∷ others rest
others (as_path segs ∷ rest) = as_path segs ∷ others rest
others (as4_path segs ∷ rest) = as4_path segs ∷ others rest
others (next_hop ip ∷ rest) = next_hop ip ∷ others rest
others (mp_reach afi safi hop nlri ∷ rest) = mp_reach afi safi hop nlri ∷ others rest
others (mp_unreach afi safi nlri ∷ rest) = mp_unreach afi safi nlri ∷ others rest

-- All the communities, in order.
unfoldable pub tagged : List PathAttr → List ℕ
tagged [] = []
tagged (communities cs ∷ rest) = cs ++ tagged rest
tagged (origin o ∷ rest) = tagged rest
tagged (as_path segs ∷ rest) = tagged rest
tagged (as4_path segs ∷ rest) = tagged rest
tagged (next_hop ip ∷ rest) = tagged rest
tagged (mp_reach afi safi hop nlri ∷ rest) = tagged rest
tagged (mp_unreach afi safi nlri ∷ rest) = tagged rest

-- The order that a reader leaves: one attribute of all the communities, behind the others.
abbrev pub settled : List PathAttr → List PathAttr
settled attrs = others attrs ++ with_tags (tagged attrs)

attrs_of-items : (attrs : List PathAttr) → attrs_of (map_to item_of attrs) ≡ others attrs
unfolding others
attrs_of-items [] = refl
attrs_of-items (communities cs ∷ rest) = attrs_of-items rest
attrs_of-items (origin o ∷ rest) = ap (λ t. origin o ∷ t) (attrs_of-items rest)
attrs_of-items (as_path segs ∷ rest) = ap (λ t. as_path segs ∷ t) (attrs_of-items rest)
attrs_of-items (as4_path segs ∷ rest) = ap (λ t. as4_path segs ∷ t) (attrs_of-items rest)
attrs_of-items (next_hop ip ∷ rest) = ap (λ t. next_hop ip ∷ t) (attrs_of-items rest)
attrs_of-items (mp_reach afi safi hop nlri ∷ rest) =
    ap (λ t. mp_reach afi safi hop nlri ∷ t) (attrs_of-items rest)
attrs_of-items (mp_unreach afi safi nlri ∷ rest) =
    ap (λ t. mp_unreach afi safi nlri ∷ t) (attrs_of-items rest)

tags_of-items : (attrs : List PathAttr) → tags_of (map_to item_of attrs) ≡ tagged attrs
unfolding tagged
tags_of-items [] = refl
tags_of-items (communities cs ∷ rest) = ap (λ t. cs ++ t) (tags_of-items rest)
tags_of-items (origin o ∷ rest) = tags_of-items rest
tags_of-items (as_path segs ∷ rest) = tags_of-items rest
tags_of-items (as4_path segs ∷ rest) = tags_of-items rest
tags_of-items (next_hop ip ∷ rest) = tags_of-items rest
tags_of-items (mp_reach afi safi hop nlri ∷ rest) = tags_of-items rest
tags_of-items (mp_unreach afi safi nlri ∷ rest) = tags_of-items rest

abbrev or_none : Result WireError (List ℕ) → List ℕ
or_none (ok b) = b
or_none (err e) = []

abbrev text : PathAttr → List ℕ
text a = or_none (write_attr a)

-- Attributes that were written are each read back.
abbrev IsReadable : List PathAttr → List ℕ → Type 0
IsReadable attrs bs = (write_all text attrs ≡ bs) × All (Reads decode_attr text item_of) attrs

text-Reads :
    (a : PathAttr) (b : List ℕ)
    → IsAttr a
    → write_attr a ≡ ok b
    → length b < 2 ^ 16
    → Reads decode_attr text item_of a
text-Reads a b h e fits =
    let t : text a ≡ b = ap or_none e in
    subst (λ x. (0 < length x) × ((rest : List ℕ) → decode_attr (x ++ rest) ≡ ok (item_of a, rest)))
      (sym t) (length-write_attr a b e, λ rest. decode_attr-write_attr a b rest h e fits)

-- Both of two results that were put together are there.
both_ok :
    {E : Type 0} {A B C : Type 0} (x : Result E A) (y : Result E B) (f : A → B → C) (c : C)
    → (x >>= λ a. y >>= λ b. ok (f a b)) ≡ ok c
    → (a : A) × (b : B) × (x ≡ ok a) × (y ≡ ok b) × (f a b ≡ c)
both_ok (ok a) (ok b) f c e = (a, b, refl, refl, cc)
both_ok (ok a) (err y) f c e = cc
both_ok (err x) y f c e = cc

write_attrs-IsReadable :
    (attrs : List PathAttr) (bs : List ℕ)
    → All IsAttr attrs
    → write_attrs attrs ≡ ok bs
    → length bs < 2 ^ 16
    → IsReadable attrs bs
unfolding write_attrs
write_attrs-IsReadable [] bs h e fits = (cc, tt)
write_attrs-IsReadable (a ∷ rest) bs h e fits =
    let (b, cs, one, others', whole) =
      both_ok (write_attr a) (write_attrs rest) (λ x y. x ++ y) bs e in
    let size = length-append b cs in
    let total = ap length whole in
    let left = write_attrs-IsReadable rest cs h.1 others' (omega (arith, size, total, fits)) in
    let t : text a ≡ b = ap or_none one in
    (
      ap (λ x. x ++ write_all text rest) t ∙ ap (λ x. b ++ x) left.0 ∙ whole,
      (text-Reads a b h.0 one (omega (arith, size, total, fits)), left.1),
    )

pub decode_attrs-write_attrs :
    (attrs : List PathAttr) (bs : List ℕ)
    → All IsAttr attrs
    → write_attrs attrs ≡ ok bs
    → length bs < 2 ^ 16
    → decode_attrs bs ≡ ok (settled attrs)
unfolding decode_attrs
decode_attrs-write_attrs attrs bs h e fits =
    let (whole, reads) = write_attrs-IsReadable attrs bs h e fits in
    ap decode_attrs (sym whole)
    ∙ ap (λ r. r >>= λ items. ok (attrs_of items ++ with_tags (tags_of items)))
        (while_left-write_all decode_attr text item_of attrs reads)
    ∙ ap (λ l. ok (l ++ with_tags (tags_of (map_to item_of attrs)))) (attrs_of-items attrs)
    ∙ ap (λ c. ok (others attrs ++ with_tags c)) (tags_of-items attrs)
