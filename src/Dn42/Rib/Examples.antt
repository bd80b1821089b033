-- ===== src/Dn42/Rib/Examples.antt =====
-- Runs of the table, and its theorems at concrete inputs.
use landscape_rill.Base.{
  ℕ, ◌*◌, ◌^◌, ◌≡◌, refl, true, false, some, none, arith, List, [], ◌∷◌, In, inl, inr, Bool-cases,
}
use mathlib.Core.Path.{subst}
use landscape_rill.Base.Text.{Text}
use landscape_rill.Base.Assoc.{lookup}
use landscape_rill.Route.Prefix.{
  Prefix, ipv4, IsCanonical, new, is_covered_by, contains, significant,
}
use landscape_rill.Dn42.Message.{UpdateMsg, as_path, next_hop, origin}
use landscape_rill.Dn42.BgpPath.{
  BgpPath, path_len, path_eq, extract_announced, extract_withdrawn, gather, gather_attr, mp_nlri,
  mp_withdrawn,
}
use landscape_rill.Dn42.Policy.{
  ImportPolicy, new_policy, default_bogons, admit, note_accepted, over_limit,
}
use landscape_rill.Dn42.Rib.{
  key, key_eq, PeerPaths, LocRib, learned, select_best, best_path, push_learned, best, not_after,
  announce_admitted, announce_one, announce_loop, remove_kept, remove_one, withdraw_one,
  withdraw_loop, apply, purge_peer,
}
use landscape_rill.Dn42.Rib.Replay.{view, replay, apply-replay, purge_peer-replay}
use landscape_rill.Dn42.Rib.Admitted.{AllAdmissible, AllReported, apply-admissible}
use landscape_rill.Dn42.Rib.Counted.{IsValid, IsEntry, apply-IsValid, best-least}

-- 172.20.0.0/14 is the whitelist, 172.22.142.0/24 and 172.23.5.0/24 are announced.
abbrev aggregate : Prefix
aggregate = record { bits = 0xac14 * 2 ^ 112; len = 14; v4 = true }

abbrev net_a : Prefix
net_a = record { bits = 0xac168e * 2 ^ 104; len = 24; v4 = true }

abbrev net_b : Prefix
net_b = record { bits = 0xac1705 * 2 ^ 104; len = 24; v4 = true }

abbrev policy : ImportPolicy
policy = new_policy (aggregate ∷ []) none 4242420001 (some 2)

abbrev alice : Text
alice = b'a' ∷ []

abbrev bob : Text
bob = b'b' ∷ []

abbrev announcement : List ℕ → List Prefix → UpdateMsg
announcement asns nets = record {
  withdrawn = [];
  attrs =
      origin 0 ∷ as_path (record { is_set = false; asns = asns } ∷ []) ∷ next_hop 0xac168e01 ∷ [];
  announced = nets;
}

abbrev both : UpdateMsg
both = announcement (4242422223 ∷ []) (net_a ∷ net_b ∷ [])

abbrev path : BgpPath
path = record {
  as_path = 4242422223 ∷ [];
  next_hop = some (ipv4 0xac168e01);
  origin = 0;
  communities = [];
}

abbrev stored : PeerPaths
stored = record { peers = (alice, path) ∷ []; best = some alice }

-- The table with one path of alice.
abbrev table : LocRib
table = (key net_a, stored) ∷ []

abbrev counted_policy : ImportPolicy
counted_policy = record policy { accepted = 1 }

-- Both networks are learned, which reaches the limit of two.
apply_two : (apply alice both [] policy).out.changes ≡ learned net_a path ∷ learned net_b path ∷ []
unfolding apply announce_loop announce_one announce_admitted admit note_accepted new_policy
    default_bogons is_covered_by contains significant new select_best best_path push_learned
    extract_announced extract_withdrawn gather gather_attr mp_nlri mp_withdrawn withdraw_loop
    path_eq path_len
apply_two = refl

table-IsValid : IsValid table counted_policy
unfolding select_best over_limit new_policy
table-IsValid = record {
  distinct = (refl, tt);
  entries = λ k e l. elim (Bool-cases (key_eq.beq (key net_a) k)) [
    | inl h ↦
        let same : stored ≡ e = cc (rw h at l) in
        subst IsEntry same (record { unique = (refl, tt); chosen = refl })
    | inr h ↦ cc (rw h at l)
  ];
  counted = refl;
  within = refl;
}

apply-replay_example :
    replay (apply alice both [] policy).out.changes (view []) (key net_b)
    ≡ best (apply alice both [] policy).rib net_b
apply-replay_example = apply-replay alice both [] policy net_b

purge_peer-replay_example :
    replay (purge_peer alice table counted_policy).out.changes (view table) (key net_a)
    ≡ best (purge_peer alice table counted_policy).rib net_a
purge_peer-replay_example = purge_peer-replay alice table counted_policy net_a

apply-IsValid_example :
    IsValid (apply bob both table counted_policy).rib (apply bob both table counted_policy).policy
apply-IsValid_example = apply-IsValid bob both table counted_policy table-IsValid

best_of_table : best table net_a ≡ some path
unfolding best best_path
best_of_table = refl

best-least_example :
    (peer : Text) × In (peer, path) stored.peers
    × ((y : Text × BgpPath) → In y stored.peers → not_after (peer, path) y ≡ true)
best-least_example =
    best-least table counted_policy net_a stored path table-IsValid refl best_of_table

apply-admissible_example :
    AllAdmissible policy (apply alice both [] policy).rib
    × AllReported policy (apply alice both [] policy).out.changes
apply-admissible_example = apply-admissible alice both [] policy (λ p e x l i. cc l)

-- The table with a path of alice and one of bob.
abbrev shared_table : LocRib
shared_table =
    (key net_a, record { peers = (alice, path) ∷ (bob, path) ∷ []; best = some alice }) ∷ []

abbrev bobs : PeerPaths
bobs = record { peers = (bob, path) ∷ []; best = some bob }

bob_left : lookup (key net_a) (purge_peer alice shared_table policy).rib ≡ some bobs
unfolding purge_peer withdraw_loop withdraw_one remove_one remove_kept select_best new push_learned
    best_path
bob_left = refl

net_a-IsCanonical : IsCanonical net_a
net_a-IsCanonical = record { short = omega arith; fits = omega arith; aligned = refl }
