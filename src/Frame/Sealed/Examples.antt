-- ===== src/Frame/Sealed/Examples.antt =====
-- The frame's theorems under a concrete MAC and cipher.
use landscape_rill.Base.{
  ℕ, suc, ◌+◌, ◌-◌, ◌≡◌, ◌∙◌, map, refl, sym, ap, List, [], ◌∷◌, ◌++◌, length, take, replicate, ok,
  arith,
}
use landscape_rill.Crypto.{Cipher, IsAead, IsInPlace, seal_in_place, open_in_place}
use landscape_rill.Base.Bytes.{be_value}
use landscape_rill.Frame.Header.{
  MeshFrameHeader, IsHeader, auth_input, decrement_ttl, encode, decode,
}
use landscape_rill.Frame.Sealed.{
  signed, build_frame, open_frame, open_frame_in_place, validate_frame,
}
use landscape_rill.Frame.Sealed.InPlace.{with_frame, open_frame_in_place-open_frame}
use landscape_rill.Frame.Sealed.RoundTrip.{open_frame-build_frame}
use landscape_rill.Frame.Sealed.Relay.{map_ok, relayed, open_frame-decrement_ttl}

-- A MAC of the key's and the input's first bytes.
abbrev toy_mac : List ℕ → List ℕ → List ℕ
toy_mac key input = replicate 8 (be_value (take 1 key)) ++ replicate 8 (be_value (take 1 input))

abbrev toy_tag : List ℕ → List ℕ
toy_tag aad = replicate 16 (be_value (take 1 aad))

abbrev toy_cipher : Cipher
toy_cipher = record {
  encrypt = λ key nonce aad msg. ok (msg, toy_tag aad);
  decrypt = λ key nonce aad msg tag. ok msg;
}

toy_cipher-IsAead : IsAead toy_cipher
toy_cipher-IsAead = record {
  sized = λ key nonce aad msg r e.
      let same : (msg, toy_tag aad) ≡ r = cc e in
      (
        ap (λ (x : List ℕ × List ℕ). length x.0) (sym same),
        ap (λ (x : List ℕ × List ℕ). length x.1) (sym same),
      );
  decrypts = λ key nonce aad msg r e.
      let same : (msg, toy_tag aad) ≡ r = cc e in ap (λ (x : List ℕ × List ℕ). ok x.0) (sym same);
}

abbrev data_header : MeshFrameHeader
data_header = record {
  version = 1;
  packet_type = 1;
  flags = 0;
  ttl = 64;
  to_node_id = 2;
  from_node_id = 1;
  seq = 7;
  len = 0;
  path_id = 0;
  route_mac = replicate 16 0;
}

data_header-IsHeader : IsHeader data_header
data_header-IsHeader = record {
  fits = (
    omega arith,
    (
      omega arith,
      (
        omega arith,
        (
          omega arith,
          (omega arith, (omega arith, (omega arith, (omega arith, (omega arith, tt))))),
        ),
      ),
    ),
  );
  mac = refl;
}

abbrev hello : List ℕ
hello = b'h' ∷ b'i' ∷ []

abbrev key_dst : List ℕ
key_dst = 17 ∷ []

abbrev session_key : List ℕ
session_key = 34 ∷ []

-- The frame of `hello`.
abbrev hello_frame : List ℕ
hello_frame =
    encode (signed toy_mac toy_cipher data_header key_dst 18) [] ++ (hello ++ replicate 16 1)

hello_built :
    build_frame toy_mac toy_cipher data_header key_dst session_key 5 hello ≡ ok hello_frame
unfolding build_frame encode seal_in_place auth_input
hello_built = refl

open_frame-build_frame_example :
    open_frame toy_mac toy_cipher hello_frame key_dst session_key 5
    ≡ ok (signed toy_mac toy_cipher data_header key_dst (length hello + 16), hello)
open_frame-build_frame_example =
    open_frame-build_frame toy_mac toy_cipher toy_cipher-IsAead (λ key input. refl) data_header
      key_dst session_key 5 hello hello_frame data_header-IsHeader refl (omega arith) hello_built

open_frame-decrement_ttl_example :
    open_frame toy_mac toy_cipher (decrement_ttl hello_frame) key_dst session_key 5
    ≡ map_ok relayed (open_frame toy_mac toy_cipher hello_frame key_dst session_key 5)
open_frame-decrement_ttl_example =
    open_frame-decrement_ttl toy_mac toy_cipher hello_frame key_dst session_key 5

-- A cipher that changes the bytes.
abbrev caesar_cipher : Cipher
caesar_cipher = record {
  encrypt = λ key nonce aad msg. ok (map (λ (b : ℕ). b + 1) msg, toy_tag aad);
  decrypt = λ key nonce aad msg tag. ok (map (λ (b : ℕ). b - 1) msg);
}

length-map : (f : ℕ → ℕ) (xs : List ℕ) → length (map f xs) ≡ length xs
length-map f [] = refl
length-map f (x ∷ xs) = ap (λ (n : ℕ). suc n) (length-map f xs)

caesar_cipher-IsInPlace : IsInPlace caesar_cipher
caesar_cipher-IsInPlace = record {
  sized = λ key nonce aad msg tag plain e.
      let same : map (λ (b : ℕ). b - 1) msg ≡ plain = cc e in
      ap (λ (x : List ℕ). length x) (sym same) ∙ length-map (λ (b : ℕ). b - 1) msg;
}

-- The frame of `hello` under this cipher.
abbrev sealed_hello_frame : List ℕ
sealed_hello_frame =
    encode (signed toy_mac caesar_cipher data_header key_dst 18) []
    ++ (b'i' ∷ b'j' ∷ [] ++ replicate 16 1)

-- The slice ends before the tag, which stays in the buffer, behind the plaintext.
hello_opened :
    open_frame_in_place toy_mac caesar_cipher sealed_hello_frame key_dst session_key 5
    ≡ ok (signed toy_mac caesar_cipher data_header key_dst 18, hello, hello_frame)
unfolding open_frame_in_place validate_frame open_in_place encode decode auth_input
hello_opened = refl

open_frame_in_place-open_frame_example :
    open_frame_in_place toy_mac caesar_cipher sealed_hello_frame key_dst session_key 5
    ≡ map_ok
        (with_frame sealed_hello_frame)
        (open_frame toy_mac caesar_cipher sealed_hello_frame key_dst session_key 5)
open_frame_in_place-open_frame_example =
    open_frame_in_place-open_frame toy_mac caesar_cipher caesar_cipher-IsInPlace sealed_hello_frame
      key_dst session_key 5
