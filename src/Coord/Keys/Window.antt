-- ===== src/Coord/Keys/Window.antt =====
-- Revocations within one window share one rotation.
use landscape_rill.Base.{
  ℕ, ◌≡◌, ◌≤◌, ◌<◌, refl, sym, ap, ◌∙◌, true, false, none, some, List, [], ◌∷◌, leb, le→leb, arith,
}
use landscape_rill.Coord.Keys.{
  KeyManager, next_version, first_deadline, arm_revoke_rotation, take_revoke_rotation,
}

-- The revocations of a window, by their deadlines.
abbrev pub arm_all : List ℕ → KeyManager → KeyManager
arm_all [] m = m
arm_all (d ∷ ds) m = arm_all ds (arm_revoke_rotation d m)

arm_all-some :
    (ds : List ℕ) (d : ℕ) (m : KeyManager) → m.pending_revoke_rotation ≡ some d → arm_all ds m ≡ m
unfolding arm_revoke_rotation
arm_all-some [] d m h = refl
arm_all-some (x ∷ ds) d m h =
    let same : arm_revoke_rotation x m ≡ m =
      ap (λ o. record m { pending_revoke_rotation = o }) (ap (λ o. first_deadline o x) h ∙ sym h) in
    ap (arm_all ds) same ∙ arm_all-some ds d m h

armed :
    (d : ℕ) (ds : List ℕ) (m : KeyManager)
    → m.pending_revoke_rotation ≡ none
    → arm_all (d ∷ ds) m ≡ record m { pending_revoke_rotation = some d }
unfolding arm_revoke_rotation
armed d ds m h =
    let first : arm_revoke_rotation d m ≡ record m { pending_revoke_rotation = some d } =
      ap (λ o. record m { pending_revoke_rotation = first_deadline o d }) h in
    ap (arm_all ds) first ∙ arm_all-some ds d (record m { pending_revoke_rotation = some d }) refl

-- Without an open window, any number of revocations make one rotation: none before the deadline of the
-- first, then one, which leaves no window behind, so that a second one changes nothing.
pub take-arm_all :
    (d : ℕ) (ds : List ℕ) (early late again : ℕ) (m : KeyManager)
    → m.pending_revoke_rotation ≡ none
    → early < d
    → d ≤ late
    → (let waiting = arm_all (d ∷ ds) m in
        let rotated = record m {
          key_version = next_version m.key_version;
          pending_revoke_rotation = none;
        } in
        (take_revoke_rotation early waiting ≡ (waiting, false))
        × (take_revoke_rotation late waiting ≡ (rotated, true))
        × (take_revoke_rotation again rotated ≡ (rotated, false)))
unfolding take_revoke_rotation
take-arm_all d ds early late again m none_open before behind =
    let waiting = record m { pending_revoke_rotation = some d } in
    let e = armed d ds m none_open in
    let soon : leb d early ≡ false = ground (arith, before) in
    let due : leb d late ≡ true = le→leb d late behind in
    let quiet : take_revoke_rotation early waiting ≡ (waiting, false) = rw soon in
    let done : take_revoke_rotation late waiting ≡ (
      record m { key_version = next_version m.key_version; pending_revoke_rotation = none },
      true,
    ) =
      rw due in
    (
      ap (take_revoke_rotation early) e ∙ quiet ∙ ap (λ w. (w, false)) (sym e),
      ap (take_revoke_rotation late) e ∙ done,
      refl,
    )
