-- ===== src/Control/Challenge.antt =====
-- rill-core/src/control/challenge.rs: the proof that a node has its static key. The functions of
-- the crates x25519-dalek, hkdf and hmac are parameters.
use landscape_rill.Base.{
  ℕ, ◌+◌, ◌-◌, ◌^◌, ◌≡◌, ◌↔◌, ◌≤◌, ◌<◌, ap, ◌∙◌, Bool, true, List, ◌++◌, ltb, leb, if◌then◌else◌,
  arith,
}
use landscape_rill.Base.Bytes.{be_bytes}

-- `PublicKey::from` of a secret, `diffie_hellman` of a secret and a public key, the expansion of
-- HKDF with a salt, the tag of HMAC under a key, and `verify_slice` of a key, a message and a tag.
pub record Primitives : Type 0 where
  pub public_of : List ℕ → List ℕ
  pub diffie_hellman : List ℕ → List ℕ → List ℕ
  pub expand : List ℕ → List ℕ → List ℕ
  pub hmac : List ℕ → List ℕ → List ℕ
  pub verify_slice : List ℕ → List ℕ → List ℕ → Bool

-- What RFC 7748 says of X25519, both sides compute the same secret, and RFC 2104 of HMAC, the tag of a
-- message verifies it.
pub record IsAgreement (c : Primitives) : Type 0 where
  pub agrees :
      (a b : List ℕ) → c.diffie_hellman a (c.public_of b) ≡ c.diffie_hellman b (c.public_of a)
  pub verifies : (key msg : List ℕ) → c.verify_slice key msg (c.hmac key msg) ≡ true

unfoldable pub x25519_shared : Primitives → List ℕ → List ℕ → List ℕ
x25519_shared c static_priv peer_pub = c.diffie_hellman static_priv peer_pub

unfoldable pub derive_challenge_key : Primitives → List ℕ → List ℕ → List ℕ
derive_challenge_key c shared_secret nonce = c.expand nonce shared_secret

unfoldable pub compute_tag : Primitives → List ℕ → List ℕ → List ℕ → ℕ → List ℕ
compute_tag c node_static_priv eph_pub nonce node_id =
    let mac_key = derive_challenge_key c (x25519_shared c node_static_priv eph_pub) nonce in
    c.hmac mac_key (be_bytes 4 node_id ++ (nonce ++ eph_pub))

unfoldable pub verify_tag : Primitives → List ℕ → List ℕ → List ℕ → ℕ → List ℕ → Bool
verify_tag c node_static_pub eph_priv nonce node_id tag =
    let mac_key = derive_challenge_key c (x25519_shared c eph_priv node_static_pub) nonce in
    c.verify_slice mac_key (be_bytes 4 node_id ++ (nonce ++ c.public_of eph_priv)) tag

-- `saturating_add` on a u64.
abbrev pub saturating_add : ℕ → ℕ → ℕ
saturating_add a b = if ltb (2 ^ 64 - 1) (a + b) then 2 ^ 64 - 1 else a + b

unfoldable pub within_window : ℕ → ℕ → ℕ → Bool
within_window issued_at now window = leb now (saturating_add issued_at window)

-- The tag that the owner of the static key computes from the ephemeral public key of a challenge is
-- accepted by the issuer of the challenge.
pub verify_tag-compute_tag :
    (c : Primitives) (node_priv eph_priv nonce : List ℕ) (node_id : ℕ)
    → IsAgreement c
    → verify_tag c
        (c.public_of node_priv)
        eph_priv
        nonce
        node_id
        (compute_tag c node_priv (c.public_of eph_priv) nonce node_id)
      ≡ true
unfolding verify_tag compute_tag x25519_shared derive_challenge_key
verify_tag-compute_tag c node_priv eph_priv nonce node_id is =
    let msg = be_bytes 4 node_id ++ (nonce ++ c.public_of eph_priv) in
    let mac_key = c.expand nonce (c.diffie_hellman node_priv (c.public_of eph_priv)) in
    ap (λ shared. c.verify_slice (c.expand nonce shared) msg (c.hmac mac_key msg))
      (is.agrees eph_priv node_priv)
    ∙ is.verifies mac_key msg

-- Saturation makes no difference: a challenge is in its window while the clock has not passed the
-- sum.
pub within_window_iff :
    (issued_at now window : ℕ)
    → now < 2 ^ 64
    → (within_window issued_at now window ≡ true) ↔ (now ≤ issued_at + window)
unfolding within_window
within_window_iff issued_at now window fits = ground (arith, fits)
