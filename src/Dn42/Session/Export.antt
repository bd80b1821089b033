-- ===== src/Dn42/Session/Export.antt =====
-- The announcements of a session are messages that a peer can read.
use landscape_rill.Base.{
  ◌^◌, ◌≡◌, ◌<◌, refl, Bool, true, false, not, List, [], ◌∷◌, ◌++◌, All, filter, Bool-cases, inl,
  inr, arith,
}
use landscape_rill.Base.Bytes.{be_bytes}
use landscape_rill.Route.Prefix.{Prefix, IsCanonical}
use landscape_rill.Dn42.Message.{Message}
use landscape_rill.Dn42.Wire.Read.{is_mapped}
use landscape_rill.Dn42.Wire.Reader.{feed}
use landscape_rill.Dn42.Wire.RoundTrip.Loops.{All-map}
use landscape_rill.Dn42.Wire.RoundTrip.Segments.{IsSegment}
use landscape_rill.Dn42.Wire.RoundTrip.Messages.{IsMessage}
use landscape_rill.Dn42.Wire.RoundTrip.Streams.{all_read}
use landscape_rill.Dn42.Policy.{ExportPolicy}
use landscape_rill.Dn42.Fsm.{Action, send}
use landscape_rill.Dn42.Session.{
  PeerConfig, queue_actions, some_if, is_nil, announce_v4, announce_v6, end_of_rib, export_messages,
}
use landscape_rill.Dn42.Session.Stream.{IsSound, encodable, feed-queue_actions}

-- Addresses and an AS number of their types, and an IPv6 address that is no IPv4 one.
pub record IsConfigured (cfg : PeerConfig) : Type 0 where
  pub v4 : cfg.local_v4 < 2 ^ 32
  pub v6 : cfg.local_v6 < 2 ^ 128
  pub plain : is_mapped (be_bytes 16 cfg.local_v6) ≡ false
  pub as_number : cfg.local_as < 2 ^ 32

All-filter_both :
    {A : Type 0} (P : A → Type 0) (test : A → Bool) (l : List A)
    → All P l
    → All (λ a. (test a ≡ true) × P a) (filter test l)
All-filter_both P test [] h = tt
All-filter_both P test (a ∷ l) h = elim (Bool-cases (test a)) [
  | inl kept ↦ rw kept ((kept, h.0), All-filter_both P test l h.1)
  | inr left ↦ rw left (All-filter_both P test l h.1)
]

not-true : (b : Bool) → not b ≡ true → b ≡ false
not-true true h = cc
not-true false h = refl

some_if-All : (P : Message → Type 0) (b : Bool) (m : Message) → P m → All P (some_if b m)
some_if-All P true m h = (h, tt)
some_if-All P false m h = tt

append-All : (P : Message → Type 0) (xs ys : List Message) → All P xs → All P ys → All P (xs ++ ys)
append-All P [] ys h k = k
append-All P (x ∷ xs) ys h k = (h.0, append-All P xs ys h.1 k)

module _ (export : ExportPolicy) (cfg : PeerConfig) (c : IsConfigured cfg) where
  path-IsSegment : IsSegment (record { is_set = false; asns = cfg.local_as ∷ [] })
  path-IsSegment = record { few = omega arith; words = (c.as_number, tt) }

  announce_v4-IsMessage :
      All IsCanonical export.own_prefixes
      → IsMessage (announce_v4 (filter (λ (p : Prefix). p.v4) export.own_prefixes) cfg)
  announce_v4-IsMessage h = record {
    withdrawn_routes = tt;
    attributes = (tt, ((path-IsSegment, tt), (c.v4, tt)));
    announced_routes =
        All-map (λ p b. record { family = b.0; canonical = b.1 })
          (filter (λ (p : Prefix). p.v4) export.own_prefixes)
          (All-filter_both IsCanonical (λ (p : Prefix). p.v4) export.own_prefixes h);
  }

  announce_v6-IsMessage :
      All IsCanonical export.own_prefixes
      → IsMessage (announce_v6 (filter (λ (p : Prefix). not p.v4) export.own_prefixes) cfg)
  announce_v6-IsMessage h = record {
    withdrawn_routes = tt;
    attributes = (
      tt,
      (
        (path-IsSegment, tt),
        (
          (
            omega arith,
            (c.v6, c.plain),
            All-map (λ (p : Prefix) b. record { family = not-true p.v4 b.0; canonical = b.1 })
                (filter (λ (p : Prefix). not p.v4) export.own_prefixes)
                (All-filter_both IsCanonical (λ (p : Prefix). not p.v4) export.own_prefixes h),
          ),
          tt,
        ),
      ),
    );
    announced_routes = tt;
  }

  export-IsMessage :
      All IsCanonical export.own_prefixes → All IsMessage (export_messages export cfg)
  unfolding export_messages
  export-IsMessage h =
      let v4 = filter (λ (p : Prefix). p.v4) export.own_prefixes in
      let v6 = filter (λ (p : Prefix). not p.v4) export.own_prefixes in
      let done : IsMessage end_of_rib = record {
        withdrawn_routes = tt;
        attributes = tt;
        announced_routes = tt;
      } in
      append-All IsMessage (some_if (not (is_nil v4)) (announce_v4 v4 cfg))
        (some_if (not (is_nil v6)) (announce_v6 v6 cfg) ++ (end_of_rib ∷ []))
        (some_if-All IsMessage (not (is_nil v4)) (announce_v4 v4 cfg) (announce_v4-IsMessage h))
        (append-All IsMessage (some_if (not (is_nil v6)) (announce_v6 v6 cfg)) (end_of_rib ∷ [])
          (some_if-All IsMessage (not (is_nil v6)) (announce_v6 v6 cfg) (announce_v6-IsMessage h))
          (done, tt))

abbrev pub sends : List Message → List Action
sends [] = []
sends (m ∷ ms) = send m ∷ sends ms

sends-IsSound : (ms : List Message) → All IsMessage ms → All IsSound (sends ms)
sends-IsSound [] h = tt
sends-IsSound (m ∷ ms) h = (h.0, sends-IsSound ms h.1)

-- With canonical own prefixes, and addresses and an AS number of their types, the IPv6 one not
-- mapped from IPv4, a peer reads of what a session announces exactly the messages that `encode` can
-- write, in order; the others are dropped without a trace.
pub feed-export_messages :
    (export : ExportPolicy) (cfg : PeerConfig)
    → IsConfigured cfg
    → All IsCanonical export.own_prefixes
    → feed [] (queue_actions (sends (export_messages export cfg)) [])
      ≡ all_read (encodable (sends (export_messages export cfg)))
feed-export_messages export cfg c h =
    feed-queue_actions (sends (export_messages export cfg))
      (sends-IsSound (export_messages export cfg) (export-IsMessage export cfg c h))
