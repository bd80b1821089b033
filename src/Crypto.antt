-- ===== src/Crypto.antt =====
-- rill-core/src/crypto/mod.rs: `seal_in_place` and `open_in_place` around the ChaCha20-Poly1305 of
-- the chacha20poly1305 crate, which is a parameter.
use landscape_rill.Base.{
  ℕ, ◌+◌, ◌-◌, ◌≡◌, ◌||◌, List, ◌++◌, length, take, drop, ltb, if◌then◌else◌, Result, ok, err,
  ◌>>=◌,
}
use landscape_rill.Base.Bytes.{be_bytes}

pub data AeadError : Type 0 where
  aead_error : AeadError

abbrev pub tag_len : ℕ
tag_len = 16

-- `encrypt_inout_detached` gives the message in place and its tag, `decrypt_inout_detached` the
-- message, each from the key, the nonce, the associated data and the message.
pub record Cipher : Type 0 where
  pub encrypt : List ℕ → List ℕ → List ℕ → List ℕ → Result AeadError (List ℕ × List ℕ)
  pub decrypt : List ℕ → List ℕ → List ℕ → List ℕ → List ℕ → Result AeadError (List ℕ)

-- What RFC 8439 says of the cipher: the message keeps its length, a tag has 16 bytes, and what was
-- encrypted decrypts under the same key, nonce and associated data.
pub record IsAead (c : Cipher) : Type 0 where
  pub sized :
      (key nonce aad msg : List ℕ) (r : List ℕ × List ℕ)
      → c.encrypt key nonce aad msg ≡ ok r
      → (length r.0 ≡ length msg) × (length r.1 ≡ 16)
  pub decrypts :
      (key nonce aad msg : List ℕ) (r : List ℕ × List ℕ)
      → c.encrypt key nonce aad msg ≡ ok r
      → c.decrypt key nonce aad r.0 r.1 ≡ ok msg

abbrev pub nonce : ℕ → ℕ → List ℕ
nonce salt counter = be_bytes 4 salt ++ be_bytes 8 counter

-- The buffer with the ciphertext and the tag written over its first bytes.
abbrev pub sealed_over : List ℕ → ℕ → List ℕ × List ℕ → List ℕ
sealed_over buf pt_len r = r.0 ++ (take tag_len r.1 ++ drop (pt_len + tag_len) buf)

-- `seal_in_place`: the buffer behind it.
unfoldable pub seal_in_place :
    Cipher → List ℕ → ℕ → ℕ → List ℕ → List ℕ → ℕ → Result AeadError (List ℕ)
seal_in_place c session_key salt counter aad buf pt_len =
    if ltb (length buf) pt_len || ltb (length buf - pt_len) tag_len
    then err aead_error
    else c.encrypt session_key (nonce salt counter) aad (take pt_len buf) >>= λ r.
        ok (sealed_over buf pt_len r)

-- What decryption in place says by its type: the plaintext is as long as the message it replaces.
pub record IsInPlace (c : Cipher) : Type 0 where
  pub sized :
      (key nonce aad msg tag plain : List ℕ)
      → c.decrypt key nonce aad msg tag ≡ ok plain
      → length plain ≡ length msg

-- `open_in_place` of the first `ct_len` bytes of the buffer: the buffer with the plaintext written
-- over its start, and the length of the plaintext. The bytes of the tag stay.
unfoldable pub open_in_place :
    Cipher → List ℕ → ℕ → ℕ → List ℕ → List ℕ → ℕ → Result AeadError (List ℕ × ℕ)
open_in_place c session_key salt counter aad buf ct_len =
    if ltb (length buf) ct_len || ltb ct_len tag_len
    then err aead_error
    else let pt_len = ct_len - tag_len in
      let rest = drop pt_len buf in
      c.decrypt session_key (nonce salt counter) aad (take pt_len buf) (take tag_len rest)
      >>= λ plain. ok (plain ++ rest, pt_len)

-- `open`: in place in a copy, which it cuts to the plaintext.
unfoldable pub open_sealed : Cipher → List ℕ → ℕ → ℕ → List ℕ → List ℕ → Result AeadError (List ℕ)
open_sealed c session_key salt counter aad ciphertext =
    open_in_place c session_key salt counter aad ciphertext (length ciphertext) >>= λ r.
    ok (take r.1 r.0)
