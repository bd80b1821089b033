-- ===== src/Route/Prefix/Parse.antt =====
-- rill-core/src/route/mod.rs, `Prefix::parse`, over the readers of the standard library.
use landscape_rill.Base.{ℕ, ◌==◌, Option, none, some, [], ◌∷◌, if◌then◌else◌}
use landscape_rill.Base.Text.{Text}
use landscape_rill.Route.Prefix.{Prefix, IpAddr, ip_bits, is_ipv4, new}

abbrev pub and_then : {A B : Type 0} → Option A → (A → Option B) → Option B
and_then none f = none
and_then (some a) f = f a

abbrev pub before : ℕ → Option (Text × Text) → Option (Text × Text)
before c none = none
before c (some (l, r)) = some (c ∷ l, r)

-- `split_once`.
abbrev pub split_once : ℕ → Text → Option (Text × Text)
split_once sep [] = none
split_once sep (c ∷ cs) =
    let rest = split_once sep cs in if c == sep then some ([], cs) else before c rest

-- `Prefix::parse`, an error as `none`; 47 is '/'.
abbrev pub parse : (Text → Option ℕ) → (Text → Option IpAddr) → Text → Option Prefix
parse parse_u8 parse_ip cidr = and_then (split_once 47 cidr) (λ s.
    and_then (parse_u8 s.1)
      (λ len. and_then (parse_ip s.0) (λ ip. new (ip_bits ip) len (is_ipv4 ip))))
