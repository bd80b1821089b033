-- ===== src/Dn42/Policy/Bogons.antt =====
-- The default bogon table against the address space that dn42 uses.
use landscape_rill.Base.{
  ◌+◌, ◌-◌, ◌*◌, ◌^◌, ◌≡◌, refl, inl, inr, Bool, true, false, not, ◌||◌, ◌&&◌, List, [], ◌∷◌, any,
  In, arith, leb, ltb, ◌==◌, ◌%◌, Bool-cases,
}
use landscape_rill.Route.Prefix.{
  Prefix, new, max_len, is_covered_by, contains, IsCanonical, bool_eq,
}
use landscape_rill.Route.Prefix.Block.{contains_block, block_size}
use landscape_rill.Base.Filters.{any-false, any-false_of}
use landscape_rill.Dn42.Policy.{default_bogons}

-- Two prefixes of different families, or with blocks that do not meet.
abbrev apart : Prefix → Prefix → Bool
apart p q =
    not (bool_eq p.v4 q.v4)
    || leb (p.bits + block_size p.len) q.bits
    || leb (q.bits + block_size q.len) p.bits

not-covered_apart :
    (p q b : Prefix)
    → IsCanonical p
    → IsCanonical q
    → IsCanonical b
    → apart q b ≡ true
    → is_covered_by p q ≡ true
    → is_covered_by p b ≡ false
unfolding is_covered_by
not-covered_apart p q b cp cq cb far covered = elim (Bool-cases (contains b p)) [
  | inr h ↦ h
  | inl h ↦
      let in_q = (contains_block q p cq cp).0 covered in
      let in_b = (contains_block b p cb cp).0 h in absurd (ground (arith, in_q, in_b))
]

-- 172.20.0.0/14, 10.0.0.0/8 and fd00::/8: the space that dn42 and its neighbours announce.
abbrev pub dn42_space : List Prefix
dn42_space =
    record { bits = 0xac14 * 2 ^ 112; len = 14; v4 = true }
    ∷ record { bits = 10 * 2 ^ 120; len = 8; v4 = true }
    ∷ record { bits = 0xfd * 2 ^ 120; len = 8; v4 = false }
    ∷ []

is_canonical : Prefix → Bool
is_canonical p = leb p.len (max_len p.v4) && ltb p.bits (2 ^ 128) && p.bits % 2 ^ (128 - p.len) == 0

is_canonical-IsCanonical : (p : Prefix) → is_canonical p ≡ true → IsCanonical p
unfolding is_canonical
is_canonical-IsCanonical p h = record {
  short = ground arith;
  fits = ground arith;
  aligned = ground arith;
}

fine : Prefix → Prefix → Bool
unfolding is_canonical
fine q b = is_canonical q && is_canonical b && apart q b

table_fine : any (λ q. any (λ b. not (fine q b)) default_bogons) dn42_space ≡ false
unfolding fine default_bogons new
table_fine = refl

fine_parts :
    (q b : Prefix)
    → not (fine q b) ≡ false
    → (is_canonical q ≡ true) × (is_canonical b ≡ true) × (apart q b ≡ true)
fine_parts q b h = conjuncts (is_canonical q) (is_canonical b) (apart q b) (unfold fine in h)
  where
    conjuncts : (x y z : Bool) → not (x && y && z) ≡ false → (x ≡ true) × (y ≡ true) × (z ≡ true)
    conjuncts true true true e = (refl, refl, refl)
    conjuncts true true false e = cc
    conjuncts true false z e = cc
    conjuncts false y z e = cc

-- No prefix inside 172.20.0.0/14, 10.0.0.0/8 or fd00::/8 is covered by a default bogon.
pub default_bogons_spare :
    (p q : Prefix)
    → IsCanonical p
    → In q dn42_space
    → is_covered_by p q ≡ true
    → any (λ b. is_covered_by p b) default_bogons ≡ false
default_bogons_spare p q c i covered =
    let row = any-false (λ q. any (λ b. not (fine q b)) default_bogons) dn42_space table_fine q i in
    any-false_of (λ b. is_covered_by p b) default_bogons
      λ b j.
        let (cq, cb, far) =
          fine_parts q b (any-false (λ b. not (fine q b)) default_bogons row b j) in
        not-covered_apart p q b c (is_canonical-IsCanonical q cq) (is_canonical-IsCanonical b cb)
          far covered
