-- ===== src/Control/Registry/Restore.antt =====
-- A registry that was restored from its stored state.
use landscape_rill.Base.{◌≡◌, ◌≢◌, refl, ap, ◌∙◌, none, List, [], ◌∷◌, All, In, inl, inr}
use landscape_rill.Base.Assoc.{lookup, insert}
use landscape_rill.Base.Bindings.{beq-cases, lookup-insert_other}
use landscape_rill.Base.Text.{Text}
use landscape_rill.Control.Registry.{id_eq, text_Eq, NodeEntry, Registry, restored, restore}
use landscape_rill.Control.Registry.Valid.{IsValid, bound, bound-IsValid}

-- Another node, with another key.
abbrev IsOther : NodeEntry → NodeEntry → Type 0
IsOther e x = (e.node_id ≢ x.node_id) × (e.static_pubkey ≢ x.static_pubkey)

-- No id and no key twice, which the caller of `restore` checks first.
abbrev pub AreDistinct : List NodeEntry → Type 0
AreDistinct [] = Unit
AreDistinct (e ∷ es) = All (IsOther e) es × AreDistinct es

abbrev IsNew : Registry → NodeEntry → Type 0
IsNew reg x = (lookup x.node_id reg.entries ≡ none) × (lookup x.static_pubkey reg.pubkeys ≡ none)

bound-IsNew :
    (e : NodeEntry) (reg : Registry) (es : List NodeEntry)
    → All (IsOther e) es
    → All (IsNew reg) es
    → All (IsNew (bound e reg)) es
bound-IsNew e reg [] o h = tt
bound-IsNew e reg (x ∷ es) o h =
    let node : lookup x.node_id (insert e.node_id e reg.entries) ≡ none =
      elim (beq-cases e.node_id x.node_id) [
        | inl same ↦ let no = o.0.0 same in elim no [ ]
        | inr other ↦ lookup-insert_other e.node_id x.node_id e reg.entries other ∙ h.0.0
      ] in
    let key : lookup x.static_pubkey (insert e.static_pubkey e.node_id reg.pubkeys) ≡ none =
      elim (beq-cases e.static_pubkey x.static_pubkey) [
        | inl same ↦ let no = o.0.1 same in elim no [ ]
        | inr other ↦
            lookup-insert_other e.static_pubkey x.static_pubkey e.node_id reg.pubkeys other ∙ h.0.1
      ] in
    ((node, key), bound-IsNew e reg es o.1 h.1)

restored-IsValid :
    (es : List NodeEntry) (reg : Registry)
    → AreDistinct es
    → All (IsNew reg) es
    → IsValid reg
    → IsValid (restored es reg)
restored-IsValid [] reg d n v = v
restored-IsValid (e ∷ es) reg d n v =
    restored-IsValid es (bound e reg) d.1 (bound-IsNew e reg es d.0 n.1)
      (bound-IsValid e reg n.0.0 n.0.1 v)

none-IsNew :
    (reg : Registry) (es : List NodeEntry)
    → All (IsNew (record reg { entries = []; pubkeys = [] })) es
none-IsNew reg [] = tt
none-IsNew reg (e ∷ es) = ((refl, refl), none-IsNew reg es)

restored_keys : (es : List NodeEntry) (reg : Registry) → (restored es reg).auth_keys ≡ reg.auth_keys
restored_keys [] reg = refl
restored_keys (e ∷ es) reg = restored_keys es (bound e reg)

-- Restoring, in a valid registry, a stored state without a repeated id or key, and whose consumed
-- keys are no auth keys, makes a valid registry.
pub restore-IsValid :
    (es : List NodeEntry) (consumed : List Text) (reg : Registry)
    → IsValid reg
    → AreDistinct es
    → ((k : Text) → In k consumed → lookup k reg.auth_keys ≡ none)
    → IsValid (restore es consumed reg)
unfolding restore
restore-IsValid es consumed reg v d spent =
    let empty = record reg { entries = []; pubkeys = [] } in
    let start : IsValid empty = record {
      owned = λ k id h. cc;
      listed = λ id e h. cc;
      spent = v.spent;
    } in
    let w = restored-IsValid es empty d (none-IsNew reg es) start in
    record {
      owned = w.owned;
      listed = w.listed;
      spent = λ k i. ap (λ m. lookup k m) (restored_keys es empty) ∙ spent k i;
    }
