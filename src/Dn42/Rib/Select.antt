-- ===== src/Dn42/Rib/Select.antt =====
-- `select_best` chooses a path that is there, and a best one.
use landscape_rill.Base.{
  ◌≡◌, refl, sym, ap, ◌∙◌, inl, inr, Bool, true, Option, none, some, List, [], ◌∷◌, In, arith,
  find?, if◌then◌else◌, Bool-cases, Option-cases,
}
use landscape_rill.Base.Best.{first_best, better, first_best-some}
use landscape_rill.Base.Sort.{IsTotal}
use landscape_rill.Base.Text.{
  Text, text_eq, text_eq_refl, text_eq_iff, text_le-total, text_le_trans,
}
use landscape_rill.Dn42.BgpPath.{BgpPath}
use landscape_rill.Dn42.Rib.{
  not_after, min_by, name_of, select_best, is_from, path_of, path_by, best_path, option_text_eq,
}

pub not_after-IsTotal : IsTotal not_after
not_after-IsTotal = record {
  total = λ (p, a) (q, b) h. ground (arith, text_le-total p q);
  trans = λ (p, a) (q, b) (r, c) h k. ground (arith, text_le_trans p q r);
}

abbrev pub anyone : Text × BgpPath → Bool
anyone x = true

min_by-first_best : (xs : List (Text × BgpPath)) → min_by xs ≡ first_best not_after anyone xs
min_by-first_best [] = refl
min_by-first_best (x ∷ xs) = rw (min_by-first_best xs) (same x (first_best not_after anyone xs))
  where
    same :
        (x : Text × BgpPath) (o : Option (Text × BgpPath))
        → (elim o as (λ _. Option (Text × BgpPath)) [
          | none ↦ some x
          | some y ↦ if not_after x y then some x else some y
        ])
          ≡ better not_after anyone x o
    same x none = refl
    same x (some y) = refl

-- What `min_by` finds: an element that no other one comes before.
pub min_by-some :
    (xs : List (Text × BgpPath)) (b : Text × BgpPath)
    → min_by xs ≡ some b
    → In b xs × ((y : Text × BgpPath) → In y xs → not_after b y ≡ true)
min_by-some xs b e =
    let (found, _, least) =
      first_best-some not_after not_after-IsTotal anyone xs b (sym (min_by-first_best xs) ∙ e) in
    (found, λ y i. least y i refl)

pub min_by-cons :
    (x : Text × BgpPath) (xs : List (Text × BgpPath))
    → (b : Text × BgpPath) × (min_by (x ∷ xs) ≡ some b)
min_by-cons x xs = elim (Option-cases (min_by xs)) [
  | inl e ↦ (x, rw e)
  | inr (y, e) ↦ rw e (elim (Bool-cases (not_after x y)) [ inl h ↦ (x, rw h) | inr h ↦ (y, rw h) ])
]

find?-In :
    (p : Text) (xs : List (Text × BgpPath)) (b : Text × BgpPath)
    → In b xs
    → text_eq b.0 p ≡ true
    → (c : Text × BgpPath) × (find? (is_from p) xs ≡ some c)
find?-In p [] b i h = elim i [ ]
find?-In p (x ∷ xs) b i h = elim (Bool-cases (is_from p x)) [
  | inl e ↦ (x, rw e)
  | inr e ↦ elim i [
    | inl same ↦ cc (rw same at h, e)
    | inr later ↦ let (c, f) = find?-In p xs b later h in (c, rw e f)
  ]
]

-- An entry with paths has a best path.
pub best_path-select :
    (x : Text × BgpPath) (xs : List (Text × BgpPath))
    → (path : BgpPath) × (best_path (record { peers = x ∷ xs; best = select_best (x ∷ xs) })
        ≡ some path)
unfolding best_path select_best
best_path-select x xs =
    let (b, e) = min_by-cons x xs in
    let (found, _) = min_by-some (x ∷ xs) b e in
    let (c, f) = find?-In b.0 (x ∷ xs) b found (text_eq_refl b.0) in
    (c.1, ap (λ (o : Option (Text × BgpPath)). path_by (name_of o) (x ∷ xs)) e ∙ ap path_of f)

pub option_text_eq-eq : (a b : Option Text) → option_text_eq a b ≡ true → a ≡ b
option_text_eq-eq none none h = refl
option_text_eq-eq none (some t) h = cc
option_text_eq-eq (some s) none h = cc
option_text_eq-eq (some s) (some t) h = ap some ((text_eq_iff s t).0 h)
