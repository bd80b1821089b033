-- ===== src/Dn42/Wire.antt =====
-- rill-dn42/src/wire/mod.rs: what the readers and writers of the BGP messages share.
pub mod Read
pub mod Write
pub mod Reader
pub mod RoundTrip
mod Examples
use landscape_rill.Base.{
  ℕ, zero, suc, ◌+◌, ◌-◌, ◌/◌, ◌%◌, Bool, true, false, List, [], ◌∷◌, take, drop, length, ◌==◌,
  if◌then◌else◌, Result, ok, err, ◌>>=◌, guard,
}
use landscape_rill.Base.Bytes.{be_value}

abbrev pub header_len : ℕ
header_len = 19

abbrev pub max_msg_len : ℕ
max_msg_len = 4096

abbrev pub as_trans : ℕ
as_trans = 23456

abbrev pub type_open : ℕ
type_open = 1

abbrev pub type_update : ℕ
type_update = 2

abbrev pub type_notification : ℕ
type_notification = 3

abbrev pub type_keepalive : ℕ
type_keepalive = 4

abbrev pub type_route_refresh : ℕ
type_route_refresh = 5

abbrev pub cap_mp_bgp : ℕ
cap_mp_bgp = 1

abbrev pub cap_route_refresh : ℕ
cap_route_refresh = 2

abbrev pub cap_four_octet_as : ℕ
cap_four_octet_as = 65

abbrev pub as_set : ℕ
as_set = 1

abbrev pub as_sequence : ℕ
as_sequence = 2

pub data WireError : Type 0 where
  bad_marker : WireError
  bad_length : ℕ → WireError
  truncated : WireError
  bad_open : WireError
  bad_update : WireError
  unknown_well_known : ℕ → WireError
  too_long : WireError
  bad_type : ℕ → WireError

-- How a reader ends without a value: with an error, in a panic, or, in the model alone, without the
-- fuel of a loop.
pub data Failure : Type 0 where
  refused : WireError → Failure
  panicked : Failure
  out_of_fuel : Failure

-- `if !test { return Err(e) }`.
abbrev pub require : Bool → WireError → Result Failure (Unit {0})
require test e = guard test (refused e)

-- `while !buf.is_empty()`: each round takes a value off the front.
unfoldable pub many {ℓ} :
    {A : Type ℓ} → (List ℕ → Result Failure (A × List ℕ)) → ℕ → List ℕ → Result Failure (List A)
many step fuel [] = ok []
many step zero (b ∷ bs) = err out_of_fuel
many step (suc f) (b ∷ bs) = step (b ∷ bs) >>= λ r. many step f r.1 >>= λ found. ok (r.0 ∷ found)

-- The loop with a round for each byte, which is enough.
abbrev pub while_left {ℓ} :
    {A : Type ℓ} → (List ℕ → Result Failure (A × List ℕ)) → List ℕ → Result Failure (List A)
while_left step buf = many step (length buf) buf

-- The two bytes at an index.
abbrev pub u16_at : ℕ → List ℕ → ℕ
u16_at i buf = be_value (take 2 (drop i buf))

-- `chunks_exact`: so many numbers of `w` bytes.
abbrev pub numbers : ℕ → ℕ → List ℕ → List ℕ
numbers w zero bs = []
numbers w (suc n) bs = be_value (take w bs) ∷ numbers w n (drop w bs)

-- The bytes of a prefix of a length: `len / 8`, rounded up.
abbrev pub octets_of : ℕ → ℕ
octets_of len = len / 8 + (if len % 8 == 0 then 0 else 1)
