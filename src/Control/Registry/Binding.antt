-- ===== src/Control/Registry/Binding.antt =====
-- What an identity binding signs.
use landscape_rill.Base.{ℕ, ◌^◌, ◌≡◌, ◌<◌, sym, ap, ◌∙◌, List, ◌++◌, length, take, drop}
use landscape_rill.Base.Bytes.{be_bytes, be_value, be_value-be_bytes}
use landscape_rill.Base.Slices.{take-append_at, drop-append_at}
use landscape_rill.Control.Registry.{binding_message}

-- Arguments of the types of the source: a u32, thirty-two bytes, two u64.
pub record IsBinding (node_id : ℕ) (static_pubkey : List ℕ) (issuance : ℕ × ℕ) : Type 0 where
  pub node : node_id < 2 ^ 32
  pub key : length static_pubkey ≡ 32
  pub index : issuance.0 < 2 ^ 64
  pub term : issuance.1 < 2 ^ 64

module _ (n : ℕ) (k : List ℕ) (i : ℕ × ℕ) (b : IsBinding n k i) where
  node_of : be_value (take 4 (drop 15 (binding_message n k i))) ≡ n
  unfolding binding_message
  node_of = be_value-be_bytes 4 n b.node

  key_of : take 32 (drop 19 (binding_message n k i)) ≡ k
  unfolding binding_message
  key_of = take-append_at k (be_bytes 8 i.0 ++ be_bytes 8 i.1) 32 b.key

  position_of : drop 32 (drop 19 (binding_message n k i)) ≡ be_bytes 8 i.0 ++ be_bytes 8 i.1
  unfolding binding_message
  position_of = drop-append_at k (be_bytes 8 i.0 ++ be_bytes 8 i.1) 32 b.key

  index_of : be_value (take 8 (drop 32 (drop 19 (binding_message n k i)))) ≡ i.0
  index_of = ap (λ l. be_value (take 8 l)) position_of ∙ be_value-be_bytes 8 i.0 b.index

  term_of : be_value (drop 8 (drop 32 (drop 19 (binding_message n k i)))) ≡ i.1
  term_of = ap (λ l. be_value (drop 8 l)) position_of ∙ be_value-be_bytes 8 i.1 b.term

-- Two bindings sign the same message only for the same node id, public key and log position.
pub binding_message_unique :
    (n m : ℕ) (k j : List ℕ) (i l : ℕ × ℕ)
    → IsBinding n k i
    → IsBinding m j l
    → binding_message n k i ≡ binding_message m j l
    → (n ≡ m) × (k ≡ j) × (i.0 ≡ l.0) × (i.1 ≡ l.1)
binding_message_unique n m k j i l b c e = (
  sym (node_of n k i b) ∙ ap (λ t. be_value (take 4 (drop 15 t))) e ∙ node_of m j l c,
  sym (key_of n k i b) ∙ ap (λ t. take 32 (drop 19 t)) e ∙ key_of m j l c,
  sym (index_of n k i b) ∙ ap (λ t. be_value (take 8 (drop 32 (drop 19 t)))) e ∙ index_of m j l c,
  sym (term_of n k i b) ∙ ap (λ t. be_value (drop 8 (drop 32 (drop 19 t)))) e ∙ term_of m j l c,
)
