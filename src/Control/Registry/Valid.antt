-- ===== src/Control/Registry/Valid.antt =====
-- Names and keys of the registry belong together, whatever is done to it.
use landscape_rill.Base.{
  ℕ, ◌≡◌, refl, sym, ap, ◌∙◌, true, false, Option, none, some, List, [], ◌∷◌, any, In, Bool-cases,
  inl, inr, arith,
}
use mathlib.Core.Path.{subst}
use landscape_rill.Base.Assoc.{lookup, insert, erase, lookup-insert}
use landscape_rill.Base.Bindings.{
  beq-cases, beq_apart, lookup-insert_same, lookup-insert_new, insert-cases, lookup-erase_same,
  lookup-erase_other, lookup-erase-none, erase-cases,
}
use landscape_rill.Base.Filters.{In-append}
use landscape_rill.Base.Text.{Text, text_eq, text_eq_iff}
use landscape_rill.Control.Registry.{
  id_eq, text_Eq, AuthKeyPolicy, one_time, reusable, AuthKeySpec, NodeEntry, Registry, new_registry,
  is_consumed, add_auth_key_spec, remove_auth_key, consume, dropped, revoke,
}

-- The node that a public key names has that key, a listed node is named by its key, and a consumed
-- key is no auth key.
pub record IsValid (reg : Registry) : Type 0 where
  pub owned :
      (k : Text) (id : ℕ)
      → lookup k reg.pubkeys ≡ some id
      → (e : NodeEntry) × (lookup id reg.entries ≡ some e) × (e.static_pubkey ≡ k)
  pub listed :
      (id : ℕ) (e : NodeEntry)
      → lookup id reg.entries ≡ some e
      → (e.node_id ≡ id) × (lookup e.static_pubkey reg.pubkeys ≡ some id)
  pub spent : (k : Text) → In k reg.consumed_one_time → lookup k reg.auth_keys ≡ none

pub new_registry-IsValid : (network_id : ℕ) → IsValid (new_registry network_id)
unfolding new_registry
new_registry-IsValid network_id = record {
  owned = λ k id h. cc;
  listed = λ id e h. cc;
  spent = λ k i. elim i [ ];
}

is_found : (k : Text) (l : List Text) → In k l → any (λ x. text_eq x k) l ≡ true
is_found k [] i = elim i [ ]
is_found k (x ∷ xs) (inl e) = ground (arith, text_eq_iff x k, sym e)
is_found k (x ∷ xs) (inr i) = ground (arith, is_found k xs i)

pub add_auth_key_spec-IsValid :
    (key : Text) (spec : AuthKeySpec) (reg : Registry)
    → IsValid reg
    → IsValid (add_auth_key_spec key spec reg)
unfolding add_auth_key_spec
add_auth_key_spec-IsValid key spec reg v = elim (Bool-cases (is_consumed key reg)) [
  | inl used ↦ rw used v
  | inr free ↦ rw free (record {
    owned = v.owned;
    listed = v.listed;
    spent = λ k i.
        let stays = lookup-insert key k spec reg.auth_keys in
        let used = is_found k reg.consumed_one_time i in
        let other : text_eq key k ≡ false = elim (Bool-cases (text_eq key k)) [
          | inl same ↦
              let e : key ≡ k = (text_eq_iff key k).0 same in
              let used' : is_consumed key reg ≡ true =
                subst (λ x. is_consumed x reg ≡ true) (sym e) used in
              cc
          | inr differs ↦ differs
        ] in
        rw stays (rw other (v.spent k i));
  })
]

abbrev pub bound : NodeEntry → Registry → Registry
bound e reg = record reg {
  entries = insert e.node_id e reg.entries;
  pubkeys = insert e.static_pubkey e.node_id reg.pubkeys;
}

-- A node of a new id and a new key.
pub bound-IsValid :
    (e : NodeEntry) (reg : Registry)
    → lookup e.node_id reg.entries ≡ none
    → lookup e.static_pubkey reg.pubkeys ≡ none
    → IsValid reg
    → IsValid (bound e reg)
bound-IsValid e reg fresh unknown v =
    let owner : (k : Text) (id : ℕ)
        → lookup k (insert e.static_pubkey e.node_id reg.pubkeys) ≡ some id
        → (x : NodeEntry) × (lookup id (insert e.node_id e reg.entries) ≡ some x)
          × (x.static_pubkey ≡ k) =
      λ k id h. elim (insert-cases e.static_pubkey k e.node_id id reg.pubkeys h) [
        | inl (key, node) ↦ (
          e,
          subst (λ n. lookup n (insert e.node_id e reg.entries) ≡ some e) node
              (lookup-insert_same e.node_id e reg.entries),
          key,
        )
        | inr (other, old) ↦
            let (x, listed, key) = v.owned k id old in
            (x, lookup-insert_new e.node_id id e x reg.entries fresh listed, key)
      ] in
    let name : (id : ℕ) (x : NodeEntry)
        → lookup id (insert e.node_id e reg.entries) ≡ some x
        → (x.node_id ≡ id)
          × (lookup x.static_pubkey (insert e.static_pubkey e.node_id reg.pubkeys) ≡ some id) =
      λ id x h. elim (insert-cases e.node_id id e x reg.entries h) [
        | inl (node, same) ↦ (
          sym (ap (λ (y : NodeEntry). y.node_id) same) ∙ node,
          subst
              (λ (y : NodeEntry).
                lookup y.static_pubkey (insert e.static_pubkey e.node_id reg.pubkeys) ≡ some id)
              same (lookup-insert_same e.static_pubkey e.node_id reg.pubkeys ∙ ap some node),
        )
        | inr (other, old) ↦
            let (node, owned) = v.listed id x old in
            (
              node,
              lookup-insert_new e.static_pubkey x.static_pubkey e.node_id id reg.pubkeys unknown
                  owned,
            )
      ] in
    record { owned = owner; listed = name; spent = v.spent }

-- A change of the auth keys and of the consumed ones that leaves the nodes alone.
pub consume-IsValid :
    (policy : AuthKeyPolicy) (key : Text) (reg : Registry)
    → IsValid reg
    → IsValid (consume policy key reg)
consume-IsValid reusable key reg v = v
consume-IsValid one_time key reg v = record {
  owned = v.owned;
  listed = v.listed;
  spent = λ k i. elim (In-append k reg.consumed_one_time (key ∷ []) i) [
    | inl old ↦ lookup-erase-none key k reg.auth_keys (v.spent k old)
    | inr (inl e) ↦
        subst (λ x. lookup x (erase key reg.auth_keys) ≡ none) (sym e)
          (lookup-erase_same key reg.auth_keys)
    | inr (inr i') ↦ elim i' [ ]
  ];
}

pub remove_auth_key-IsValid :
    (key : Text) (reg : Registry) → IsValid reg → IsValid (remove_auth_key key reg)
unfolding remove_auth_key
remove_auth_key-IsValid key reg v = record {
  owned = v.owned;
  listed = v.listed;
  spent = λ k i. lookup-erase-none key k reg.auth_keys (v.spent k i);
}

dropped-IsValid :
    (node_id : ℕ) (reg : Registry) (o : Option NodeEntry)
    → lookup node_id reg.entries ≡ o
    → IsValid reg
    → IsValid (dropped node_id reg o)
dropped-IsValid node_id reg none h v = v
dropped-IsValid node_id reg (some e) h v =
    let mine = (v.listed node_id e h).1 in
    record {
      owned = λ k id o.
          let (other, old) = erase-cases e.static_pubkey k id reg.pubkeys o in
          let (x, listed, key) = v.owned k id old in
          let apart : id_eq.beq node_id id ≡ false = elim (beq-cases node_id id) [
            | inl same ↦
                let there : lookup id reg.entries ≡ some e =
                  subst (λ n. lookup n reg.entries ≡ some e) same h in
                let whole : Path (Option NodeEntry) (some e) (some x) = sym there ∙ listed in
                let one : e ≡ x = cc in
                let lost : ⊥ =
                  beq_apart e.static_pubkey k other
                    (ap (λ (y : NodeEntry). y.static_pubkey) one ∙ key) in
                elim lost [ ]
            | inr differs ↦ differs
          ] in
          (x, lookup-erase_other node_id id reg.entries apart ∙ listed, key);
      listed = λ id x o.
          let (other, old) = erase-cases node_id id x reg.entries o in
          let (node, owned) = v.listed id x old in
          let apart : text_Eq.beq e.static_pubkey x.static_pubkey ≡ false =
            elim (beq-cases e.static_pubkey x.static_pubkey) [
              | inl same ↦
                  let both : Path (Option ℕ) (some node_id) (some id) =
                    sym mine ∙ ap (λ k. lookup k reg.pubkeys) same ∙ owned in
                  let one : node_id ≡ id = cc in
                  let lost : ⊥ = beq_apart node_id id other one in elim lost [ ]
              | inr differs ↦ differs
            ] in
          (node, lookup-erase_other e.static_pubkey x.static_pubkey reg.pubkeys apart ∙ owned);
      spent = v.spent;
    }

pub revoke-IsValid : (node_id : ℕ) (reg : Registry) → IsValid reg → IsValid (revoke node_id reg)
unfolding revoke
revoke-IsValid node_id reg v = dropped-IsValid node_id reg (lookup node_id reg.entries) refl v
