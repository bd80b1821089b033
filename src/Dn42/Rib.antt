-- ===== src/Dn42/Rib.antt =====
-- rill-dn42/src/rib/mod.rs: `LocRib`. The `HashMap` is an association list with distinct keys; the
-- order in which it is walked is that of the list, which no theorem depends on.
pub mod Rounds
pub mod Loops
pub mod Names
pub mod Select
pub mod Replay
pub mod Admitted
pub mod Counted
pub mod Purge
mod Examples
use landscape_rill.Base.{
  ℕ, ◌≡◌, refl, ◌↔◌, Bool, true, false, ◌&&◌, ◌||◌, not, Option, none, some, List, [], ◌∷◌, ◌++◌,
  map, length, ltb, ◌==◌, if◌then◌else◌, filter, find?, Result, ok, err, arith,
}
use landscape_rill.Base.Assoc.{Eq, lookup, insert, erase, keys}
use landscape_rill.Base.Text.{Text, text_eq, text_le}
use landscape_rill.Route.Prefix.{Prefix, new, expect, bool_eq}
use landscape_rill.Dn42.Message.{UpdateMsg}
use landscape_rill.Dn42.BgpPath.{
  BgpPath, path_len, path_eq, is_empty, extract_announced, extract_withdrawn,
}
use landscape_rill.Dn42.Policy.{ImportPolicy, ImportReject, admit, note_accepted, note_withdrawn}

pub data RouteChange : Type 0 where
  learned : Prefix → BgpPath → RouteChange
  withdrawn : Prefix → RouteChange

pub record ApplyOutcome : Type 0 where
  pub changes : List RouteChange
  pub rejected : List (Prefix × ImportReject)
  pub max_prefix_exceeded : Bool

abbrev pub PfxKey : Type 0
PfxKey = ℕ × ℕ × Bool

abbrev pub key : Prefix → PfxKey
key p = (p.bits, p.len, p.v4)

abbrev pub key_beq : PfxKey → PfxKey → Bool
key_beq a b = a.0 == b.0 && a.1 == b.1 && bool_eq a.2 b.2

pub key_beq_iff : (a b : PfxKey) → (key_beq a b ≡ true) ↔ (a ≡ b)
key_beq_iff a b = ground arith

instance abbrev pub key_eq : Eq PfxKey
key_eq = record { beq = key_beq; beq_iff = key_beq_iff }

pub record PeerPaths : Type 0 where
  pub peers : List (Text × BgpPath)
  pub best : Option Text

abbrev pub LocRib : Type 0
LocRib = List (PfxKey × PeerPaths)

-- `cmp` of `select_best`: the path length, then the peer's name.
abbrev pub not_after : Text × BgpPath → Text × BgpPath → Bool
not_after (p, a) (q, b) = ltb (path_len a) (path_len b) || path_len a == path_len b && text_le p q

-- `Iterator::min_by`: the first of the least elements.
abbrev pub min_by : List (Text × BgpPath) → Option (Text × BgpPath)
min_by [] = none
min_by (x ∷ xs) = elim (min_by xs) [
  | none ↦ some x
  | some y ↦ if not_after x y then some x else some y
]

abbrev pub name_of : Option (Text × BgpPath) → Option Text
name_of none = none
name_of (some x) = some x.0

unfoldable pub select_best : List (Text × BgpPath) → Option Text
select_best peers = name_of (min_by peers)

abbrev pub is_from : Text → Text × BgpPath → Bool
is_from peer x = text_eq x.0 peer

abbrev pub path_of : Option (Text × BgpPath) → Option BgpPath
path_of none = none
path_of (some x) = some x.1

abbrev pub path_by : Option Text → List (Text × BgpPath) → Option BgpPath
path_by none peers = none
path_by (some p) peers = path_of (find? (is_from p) peers)

-- The path of the peer that `best` names.
unfoldable pub best_path : PeerPaths → Option BgpPath
best_path e = path_by e.best e.peers

abbrev pub best_at : Option PeerPaths → Option BgpPath
best_at none = none
best_at (some e) = best_path e

-- `LocRib::best`.
unfoldable pub best : LocRib → Prefix → Option BgpPath
best rib prefix = best_at (lookup (key prefix) rib)

-- `LocRib::accepted_prefixes`.
unfoldable pub accepted_prefixes : LocRib → ℕ
accepted_prefixes rib = length rib

abbrev pub learned_change : Prefix → Option BgpPath → List RouteChange
learned_change prefix none = []
learned_change prefix (some path) = learned prefix path ∷ []

-- `push_learned`, as the changes that it appends.
unfoldable pub push_learned : Prefix → PeerPaths → List RouteChange
push_learned prefix e = learned_change prefix (best_path e)

abbrev pub or_default : Option PeerPaths → PeerPaths
or_default none = record { peers = []; best = none }
or_default (some e) = e

-- `*slot = path.clone()` on the first entry of the peer.
abbrev pub replace_slot : Text → BgpPath → List (Text × BgpPath) → List (Text × BgpPath)
replace_slot peer path [] = []
replace_slot peer path (x ∷ xs) =
    let rest = replace_slot peer path xs in if is_from peer x then (x.0, path) ∷ xs else x ∷ rest

-- What `apply` changes: the table, the policy's counter and the outcome.
pub record ApplyState : Type 0 where
  pub rib : LocRib
  pub policy : ImportPolicy
  pub out : ApplyOutcome

abbrev pub reject : ApplyState → Prefix → ImportReject → ApplyState
reject s prefix reason = record s {
  out = record (s.out) { rejected = s.out.rejected ++ ((prefix, reason) ∷ []) };
}

-- The entry `e` of `prefix` gets new paths: best path and change follow.
abbrev pub with_peers : ApplyState → Prefix → List (Text × BgpPath) → ImportPolicy → ApplyState
with_peers s prefix peers policy =
    let e : PeerPaths = record { peers = peers; best = select_best peers } in
    record {
      rib = insert (key prefix) e s.rib;
      policy = policy;
      out = record (s.out) { changes = s.out.changes ++ push_learned prefix e };
    }

-- The round of the first loop of `apply` for an admitted route. `entry(k).or_default()` leaves an
-- entry in the table even where the limit then ends the round.
unfoldable pub announce_admitted : Text → ApplyState → Prefix → BgpPath → ApplyState
announce_admitted peer s prefix path =
    let e = or_default (lookup (key prefix) s.rib) in
    elim (find? (is_from peer) e.peers) [
      | some x ↦
          if path_eq x.1 path
          then record s { rib = insert (key prefix) e s.rib }
          else with_peers s prefix (replace_slot peer path e.peers) s.policy
      | none ↦ elim (note_accepted s.policy) [
        | err reason ↦ record s {
          rib = insert (key prefix) e s.rib;
          out = record (s.out) { max_prefix_exceeded = true };
        }
        | ok policy ↦ with_peers s prefix (e.peers ++ ((peer, path) ∷ [])) policy
      ]
    ]

unfoldable pub announce_one : Text → ApplyState → Prefix × BgpPath → ApplyState
announce_one peer s (prefix, path) = elim (admit s.policy prefix path) [
  | err reason ↦ reject s prefix reason
  | ok _ ↦ announce_admitted peer s prefix path
]

-- The first loop; the limit ends it.
unfoldable pub announce_loop : Text → ApplyState → List (Prefix × BgpPath) → ApplyState
announce_loop peer s [] = s
announce_loop peer s (route ∷ rest) =
    let s' = announce_one peer s route in
    elim s'.out.max_prefix_exceeded [ true ↦ s' | false ↦ announce_loop peer s' rest ]

abbrev pub option_text_eq : Option Text → Option Text → Bool
option_text_eq none none = true
option_text_eq (some s) (some t) = text_eq s t
option_text_eq _ _ = false

-- `remove_one` behind `retain`, which kept the paths `kept` of the entry `e`.
unfoldable pub remove_kept :
    LocRib → Prefix → PeerPaths → List (Text × BgpPath) → LocRib × Option (List RouteChange)
remove_kept rib prefix e kept =
    let new_best = select_best kept in
    let e' : PeerPaths = record { peers = kept; best = new_best } in
    if length kept == length e.peers
    then (rib, none)
    else if is_empty kept
    then (erase (key prefix) rib, some (withdrawn prefix ∷ []))
    else if option_text_eq new_best e.best
    then (insert (key prefix) (record e { peers = kept }) rib, some [])
    else (insert (key prefix) e' rib, some (push_learned prefix e'))

abbrev pub kept_peers : Text → PeerPaths → List (Text × BgpPath)
kept_peers peer e = filter (λ x. not (is_from peer x)) e.peers

abbrev pub remove_at :
    Text → LocRib → Prefix → Option PeerPaths → LocRib × Option (List RouteChange)
remove_at peer rib prefix none = (rib, none)
remove_at peer rib prefix (some e) = remove_kept rib prefix e (kept_peers peer e)

-- `LocRib::remove_one`: the new table, and the changes if the peer had a path.
unfoldable pub remove_one : Text → LocRib → Prefix → LocRib × Option (List RouteChange)
remove_one peer rib prefix = remove_at peer rib prefix (lookup (key prefix) rib)

-- The body of `if let Some(changes)`.
abbrev pub note_removal : ApplyState → LocRib → Option (List RouteChange) → ApplyState
note_removal s rib none = record s { rib = rib }
note_removal s rib (some changes) = record {
  rib = rib;
  policy = note_withdrawn s.policy;
  out = record (s.out) { changes = s.out.changes ++ changes };
}

-- A round of the second loop, which `purge_peer` shares.
unfoldable pub withdraw_one : Text → ApplyState → Prefix → ApplyState
withdraw_one peer s prefix = let r = remove_one peer s.rib prefix in note_removal s r.0 r.1

unfoldable pub withdraw_loop : Text → ApplyState → List Prefix → ApplyState
withdraw_loop peer s [] = s
withdraw_loop peer s (p ∷ rest) = withdraw_loop peer (withdraw_one peer s p) rest

abbrev pub start : LocRib → ImportPolicy → ApplyState
start rib policy = record {
  rib = rib;
  policy = policy;
  out = record { changes = []; rejected = []; max_prefix_exceeded = false };
}

-- `LocRib::apply`: the table, the policy and the outcome.
unfoldable pub apply : Text → UpdateMsg → LocRib → ImportPolicy → ApplyState
apply peer update rib policy =
    let s = announce_loop peer (start rib policy) (extract_announced update) in
    elim s.out.max_prefix_exceeded [
      | true ↦ s
      | false ↦ withdraw_loop peer s (extract_withdrawn update)
    ]

-- The prefix that a key was made of.
abbrev pub prefix_of : PfxKey → Prefix
prefix_of k = expect (new k.0 k.1 k.2)

-- `LocRib::purge_peer`: the withdrawals of every key; its result is `out.changes`.
unfoldable pub purge_peer : Text → LocRib → ImportPolicy → ApplyState
purge_peer peer rib policy = withdraw_loop peer (start rib policy) (map prefix_of (keys rib))
