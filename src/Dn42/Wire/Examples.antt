-- ===== src/Dn42/Wire/Examples.antt =====
-- Messages with their bytes.
use landscape_rill.Base.{
  ℕ, ◌+◌, ◌*◌, ◌^◌, ◌≡◌, ◌≢◌, ◌≤◌, refl, true, false, List, [], ◌∷◌, ◌++◌, length, replicate, All,
  ok, err, arith,
}
use landscape_rill.Route.Prefix.{Prefix, ipv6}
use landscape_rill.Dn42.Message.{
  Segment, origin, as_path, next_hop, communities, mp_reach, UpdateMsg, OpenMsg, mp_bgp,
  route_refresh, four_octet_as, Message, open_message, update, keepalive,
}
use landscape_rill.Dn42.Wire.{panicked, out_of_fuel, type_update}
use landscape_rill.Dn42.Wire.Read.{decode}
use landscape_rill.Dn42.Wire.Read.Ends.{decode-ends}
use landscape_rill.Dn42.Wire.Write.{
  frame, encode, encode_body, open_body, update_body, encode_capability, encode_capabilities,
  write_attrs, write_attr, attr_value, write_segments, write_segment, write_asns, write_communities,
  write_nlris, write_nlri,
}
use landscape_rill.Dn42.Wire.Reader.{feed}
use landscape_rill.Dn42.Wire.Reader.Pieces.{after, feed-append}
use landscape_rill.Dn42.Wire.Reader.Ends.{feed-ends}
use landscape_rill.Dn42.Wire.RoundTrip.Routes.{IsRoute}
use landscape_rill.Dn42.Wire.RoundTrip.Segments.{IsSegment}
use landscape_rill.Dn42.Wire.RoundTrip.Opens.{IsOpen}
use landscape_rill.Dn42.Wire.RoundTrip.Updates.{IsUpdate}
use landscape_rill.Dn42.Wire.RoundTrip.Messages.{IsMessage, arrival, decode-encode_whole}
use landscape_rill.Dn42.Wire.RoundTrip.Streams.{encode_all, all_read, feed-encode_all}
use landscape_rill.Dn42.Wire.RoundTrip.Panics.{decode-panics}

-- 172.20.0.0/14
abbrev dn42_block : Prefix
dn42_block = record { bits = 172 * 2 ^ 120 + 20 * 2 ^ 112; len = 14; v4 = true }

-- fd00::/8
abbrev ula_block : Prefix
ula_block = record { bits = 253 * 2 ^ 120; len = 8; v4 = false }

abbrev path : Segment
path = record { is_set = false; asns = 4242420001 ∷ 4242420002 ∷ [] }

abbrev some_update : UpdateMsg
some_update = record {
  withdrawn = dn42_block ∷ [];
  attrs =
      communities (4242 ∷ [])
      ∷ origin 0
      ∷ as_path (path ∷ [])
      ∷ next_hop 2886729729
      ∷ mp_reach 2 1 (ipv6 (254 * 2 ^ 120 + 1)) (ula_block ∷ [])
      ∷ communities (7 ∷ 8 ∷ [])
      ∷ [];
  announced = dn42_block ∷ [];
}

abbrev some_open : OpenMsg
some_open = record {
  as4 = 4242420001;
  hold_time = 90;
  bgp_id = 2886729729;
  capabilities = mp_bgp 1 1 ∷ mp_bgp 2 1 ∷ route_refresh ∷ four_octet_as 4242420001 ∷ [];
}

dn42_block-IsRoute : IsRoute true dn42_block
dn42_block-IsRoute = record {
  family = refl;
  canonical = record { short = omega arith; fits = omega arith; aligned = refl };
}

ula_block-IsRoute : IsRoute false ula_block
ula_block-IsRoute = record {
  family = refl;
  canonical = record { short = omega arith; fits = omega arith; aligned = refl };
}

path-IsSegment : IsSegment path
path-IsSegment = record { few = omega arith; words = (omega arith, (omega arith, tt)) }

some_update-IsUpdate : IsUpdate some_update
some_update-IsUpdate = record {
  withdrawn_routes = (dn42_block-IsRoute, tt);
  attributes = (
    (omega arith, tt),
    (
      tt,
      (
        (path-IsSegment, tt),
        (
          omega arith,
          (
            (omega arith, (omega arith, refl), (ula_block-IsRoute, tt)),
            ((omega arith, (omega arith, tt)), tt),
          ),
        ),
      ),
    ),
  );
  announced_routes = (dn42_block-IsRoute, tt);
}

some_open-IsOpen : IsOpen some_open
unfolding encode_capabilities encode_capability
some_open-IsOpen = record {
  hold = omega arith;
  id = omega arith;
  capable = (omega arith, (omega arith, (tt, (omega arith, tt))));
  few = omega arith;
  numbered = refl;
}

abbrev stream : List Message
stream = open_message some_open ∷ keepalive ∷ update some_update ∷ []

stream-IsMessage : All IsMessage stream
stream-IsMessage = (some_open-IsOpen, (tt, (some_update-IsUpdate, tt)))

stream_sent : (encode_all stream []).1 ≡ ok tt
unfolding encode_all encode encode_body open_body update_body encode_capabilities encode_capability
    write_attrs write_attr attr_value write_segments write_segment write_asns write_communities
    write_nlris write_nlri
stream_sent = refl

update_sent : (encode (update some_update) (1 ∷ 2 ∷ [])).1 ≡ ok tt
unfolding encode encode_body update_body write_attrs write_attr attr_value write_segments
    write_segment write_asns write_communities write_nlris write_nlri
update_sent = refl

decode-encode_whole_example :
    (bytes : List ℕ) × ((encode (update some_update) (1 ∷ 2 ∷ [])).0 ≡ (1 ∷ 2 ∷ []) ++ bytes)
    × (length bytes ≤ 4096)
    × (decode bytes ≡ ok (arrival (update some_update)))
decode-encode_whole_example =
    decode-encode_whole (update some_update) (1 ∷ 2 ∷ []) some_update-IsUpdate update_sent

feed-encode_all_example : feed [] (encode_all stream []).0 ≡ all_read stream
feed-encode_all_example = feed-encode_all stream stream-IsMessage stream_sent

abbrev keepalive_frame : List ℕ
keepalive_frame = frame 4 []

feed-append_example :
    feed (255 ∷ []) (replicate 9 255 ++ keepalive_frame)
    ≡ (let r = feed (255 ∷ []) (replicate 9 255) in after r.result r keepalive_frame)
feed-append_example = feed-append (255 ∷ []) (replicate 9 255) keepalive_frame

feed-ends_example : (feed (255 ∷ []) keepalive_frame).result ≢ err out_of_fuel
feed-ends_example = feed-ends (255 ∷ []) keepalive_frame

decode-ends_example : decode keepalive_frame ≢ err out_of_fuel
decode-ends_example = decode-ends keepalive_frame

decode-panics_example :
    decode (frame type_update (0 ∷ 0 ∷ 0 ∷ 0 ∷ 129 ∷ replicate 17 7)) ≡ err panicked
decode-panics_example = decode-panics 129 (replicate 17 7) (omega arith) (omega arith) (omega arith)
