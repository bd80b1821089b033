-- ===== src/Control/Revoke.antt =====
-- rill-core/src/control/revoke.rs: the set of revoked nodes, as a list without repetitions.
use mathlib.Core.Path.{subst}
use landscape_rill.Base.{
  ℕ, ◌+◌, ◌≡◌, refl, ap, ◌∙◌, ◌==◌, ==_iff, Bool, true, ◌||◌, List, [], ◌∷◌, length, any,
  if◌then◌else◌, Bool-cases, inl, inr, arith,
}

pub record RevokeList : Type 0 where
  pub revoked : List ℕ

abbrev pub new_list : RevokeList
new_list = record { revoked = [] }

abbrev pub is_revoked : ℕ → RevokeList → Bool
is_revoked node_id list = any (λ n. n == node_id) list.revoked

unfoldable pub revoke_node : ℕ → RevokeList → RevokeList
revoke_node node_id list =
    if is_revoked node_id list then list else record { revoked = node_id ∷ list.revoked }

abbrev pub revoked_count : RevokeList → ℕ
revoked_count list = length list.revoked

abbrev pub is_empty : RevokeList → Bool
is_empty list = revoked_count list == 0

-- A revocation adds its node, keeps the others and counts a node once.
pub is_revoked-revoke_node :
    (node_id other : ℕ) (list : RevokeList)
    → (is_revoked other (revoke_node node_id list) ≡ (node_id == other || is_revoked other list))
      × (revoked_count (revoke_node node_id list)
          ≡ revoked_count list + (if is_revoked node_id list then 0 else 1))
unfolding revoke_node
is_revoked-revoke_node node_id other list = elim (Bool-cases (is_revoked node_id list)) [
  | inl there ↦
      let kept : revoke_node node_id list ≡ list = rw there in
      let found : is_revoked other list ≡ (node_id == other || is_revoked other list) =
        elim (Bool-cases (node_id == other)) [
          | inl same ↦
              let listed : is_revoked other list ≡ true =
                subst (λ n. is_revoked n list ≡ true) ((==_iff node_id other).0 same) there in
              rw (same, listed)
          | inr differs ↦ rw differs
        ] in
      (ap (is_revoked other) kept ∙ found, ap revoked_count kept ∙ rw there (omega arith))
  | inr new ↦ rw new (refl, omega arith)
]
