-- ===== src/Route/Prefix/Checked.antt =====
-- `Prefix::contains` with and without overflow checks.
use landscape_rill.Base.{◌≡◌, Bool, false, none, some, arith, ◌↔◌}
use landscape_rill.Route.Prefix.{Prefix, IsCanonical, contains, checked_contains}

-- The build with the checks panics exactly on an IPv6 prefix of length 128 against ::/0.
checked_contains-none_iff :
    (p q : Prefix)
    → IsCanonical p
    → IsCanonical q
    → (checked_contains p q ≡ none)
      ↔ ((p.v4 ≡ false) × (q.v4 ≡ false) × (p.len ≡ 0) × (q.len ≡ 128))
unfolding checked_contains
checked_contains-none_iff p q c d = ground (arith, c.short, d.short)

-- Elsewhere it answers what the release build answers.
checked_contains-some : (p q : Prefix) (b : Bool) → checked_contains p q ≡ some b → contains p q ≡ b
unfolding checked_contains contains
checked_contains-some p q b h = ground arith
