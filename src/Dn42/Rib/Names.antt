-- ===== src/Dn42/Rib/Names.antt =====
-- The peers of one entry: each has one path.
use landscape_rill.Base.{
  ◌+◌, ◌≡◌, refl, inl, inr, false, not, none, some, List, [], ◌∷◌, ◌++◌, In, filter, find?,
  Bool-cases, arith, length, ◌==◌,
}
use mathlib.Core.Path.{subst}
use landscape_rill.Base.Text.{Text, text_eq_iff, text_eq_refl}
use landscape_rill.Dn42.BgpPath.{BgpPath}
use landscape_rill.Dn42.Rib.{is_from, replace_slot}

abbrev pub Paths : Type 0
Paths = List (Text × BgpPath)

abbrev pub UniqueNames : Paths → Type 0
UniqueNames [] = Unit
UniqueNames (x ∷ xs) = (find? (is_from x.0) xs ≡ none) × UniqueNames xs

find?-append_other :
    (q : Text) (xs : Paths) (y : Text × BgpPath)
    → find? (is_from q) xs ≡ none
    → is_from q y ≡ false
    → find? (is_from q) (xs ++ (y ∷ [])) ≡ none
find?-append_other q [] y h k = ground arith
find?-append_other q (x ∷ xs) y h k = ground (arith, find?-append_other q xs y)

pub UniqueNames-append :
    (peer : Text) (path : BgpPath) (xs : Paths)
    → find? (is_from peer) xs ≡ none
    → UniqueNames xs
    → UniqueNames (xs ++ ((peer, path) ∷ []))
UniqueNames-append peer path [] h u = (refl, tt)
UniqueNames-append peer path (x ∷ xs) h u = ground (
  arith,
  UniqueNames-append peer path xs,
  find?-append_other x.0 xs (peer, path),
  text_eq_iff x.0 peer,
  text_eq_iff peer x.0,
)

find?-replace_slot :
    (q peer : Text) (path : BgpPath) (xs : Paths)
    → find? (is_from q) xs ≡ none
    → find? (is_from q) (replace_slot peer path xs) ≡ none
find?-replace_slot q peer path [] h = refl
find?-replace_slot q peer path (x ∷ xs) h = ground (arith, find?-replace_slot q peer path xs)

pub UniqueNames-replace_slot :
    (peer : Text) (path : BgpPath) (xs : Paths)
    → UniqueNames xs
    → UniqueNames (replace_slot peer path xs)
UniqueNames-replace_slot peer path [] u = tt
UniqueNames-replace_slot peer path (x ∷ xs) u =
    ground (arith, UniqueNames-replace_slot peer path xs, find?-replace_slot x.0 peer path xs)

pub length-replace_slot :
    (peer : Text) (path : BgpPath) (xs : Paths) → length (replace_slot peer path xs) ≡ length xs
length-replace_slot peer path [] = refl
length-replace_slot peer path (x ∷ xs) = ground (arith, length-replace_slot peer path xs)

abbrev pub drop_peer : Text → Paths → Paths
drop_peer peer xs = filter (λ x. not (is_from peer x)) xs

find?-drop_none :
    (q peer : Text) (xs : Paths)
    → find? (is_from q) xs ≡ none
    → find? (is_from q) (drop_peer peer xs) ≡ none
find?-drop_none q peer [] h = refl
find?-drop_none q peer (x ∷ xs) h = ground (arith, find?-drop_none q peer xs)

pub UniqueNames-drop : (peer : Text) (xs : Paths) → UniqueNames xs → UniqueNames (drop_peer peer xs)
UniqueNames-drop peer [] u = tt
UniqueNames-drop peer (x ∷ xs) u =
    ground (arith, UniqueNames-drop peer xs, find?-drop_none x.0 peer xs)

drop_none : (peer : Text) (xs : Paths) → find? (is_from peer) xs ≡ none → drop_peer peer xs ≡ xs
drop_none peer [] h = refl
drop_none peer (x ∷ xs) h = ground (arith, drop_none peer xs)

-- A withdrawal that shortens the list drops one path.
pub length-drop_peer :
    (peer : Text) (xs : Paths)
    → UniqueNames xs
    → (length (drop_peer peer xs) == length xs) ≡ false
    → length (drop_peer peer xs) + 1 ≡ length xs
length-drop_peer peer [] u h = cc
length-drop_peer peer (x ∷ xs) u h =
    ground (arith, length-drop_peer peer xs, drop_none peer xs, text_eq_iff x.0 peer)

-- The path that is found under a name is the one that the list holds under it.
pub find?-unique :
    (xs : Paths) (b : Text × BgpPath) → UniqueNames xs → In b xs → find? (is_from b.0) xs ≡ some b
find?-unique [] b u i = elim i [ ]
find?-unique (x ∷ xs) b u (inl e) = rw (e, text_eq_refl x.0)
find?-unique (x ∷ xs) b u (inr i) = elim (Bool-cases (is_from b.0 x)) [
  | inl h ↦
      let same : x.0 ≡ b.0 = (text_eq_iff x.0 b.0).0 h in
      let none_left = subst (λ (n : Text). find? (is_from n) xs ≡ none) same u.0 in
      cc (none_left, find?-unique xs b u.1 i)
  | inr h ↦ rw h (find?-unique xs b u.1 i)
]
