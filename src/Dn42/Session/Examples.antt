-- ===== src/Dn42/Session/Examples.antt =====
-- A session that announces 172.20.0.0/14 and fd00::/8.
use landscape_rill.Base.{
  ◌+◌, ◌*◌, ◌^◌, ◌≡◌, refl, true, false, some, [], ◌∷◌, ◌++◌, All, replicate, arith,
}
use landscape_rill.Route.Prefix.{Prefix, IsCanonical}
use landscape_rill.Dn42.Wire.Reader.{feed}
use landscape_rill.Dn42.Wire.RoundTrip.Streams.{all_read}
use landscape_rill.Dn42.Wire.Write.{
  encode, encode_body, update_body, write_attrs, write_attr, attr_value, write_segments,
  write_segment, write_asns, write_nlris, write_nlri,
}
use landscape_rill.Dn42.Policy.{ExportPolicy}
use landscape_rill.Dn42.Session.{
  PeerConfig, netstack, forward, classify, queue_actions, announce_v4, announce_v6, end_of_rib,
  export_messages,
}
use landscape_rill.Dn42.Session.Stream.{encodable}
use landscape_rill.Dn42.Session.Export.{IsConfigured, sends, feed-export_messages}

abbrev four : Prefix
four = record { bits = 172 * 2 ^ 120 + 20 * 2 ^ 112; len = 14; v4 = true }

abbrev six : Prefix
six = record { bits = 253 * 2 ^ 120; len = 8; v4 = false }

abbrev own : ExportPolicy
own = record { own_prefixes = six ∷ four ∷ [] }

abbrev peer : PeerConfig
peer = record { local_v4 = 2886729729; local_v6 = 254 * 2 ^ 120 + 1; local_as = 4242420001 }

peer-IsConfigured : IsConfigured peer
peer-IsConfigured = record {
  v4 = omega arith;
  v6 = omega arith;
  plain = refl;
  as_number = omega arith;
}

own-IsCanonical : All IsCanonical own.own_prefixes
own-IsCanonical = (
  record { short = omega arith; fits = omega arith; aligned = refl },
  (record { short = omega arith; fits = omega arith; aligned = refl }, tt),
)

feed-export_messages_example :
    feed [] (queue_actions (sends (export_messages own peer)) [])
    ≡ all_read (encodable (sends (export_messages own peer)))
feed-export_messages_example = feed-export_messages own peer peer-IsConfigured own-IsCanonical

-- All three messages are short enough.
all_sent :
    encodable (sends (export_messages own peer))
    ≡ announce_v4 (four ∷ []) peer ∷ announce_v6 (six ∷ []) peer ∷ end_of_rib ∷ []
unfolding encodable export_messages encode encode_body update_body write_attrs write_attr attr_value
    write_segments write_segment write_asns write_nlris write_nlri
all_sent = refl

to_netstack :
    classify (69 ∷ (replicate 15 0 ++ (172 ∷ 16 ∷ 0 ∷ 1 ∷ []))) 2886729729 0
    ≡ some (netstack (69 ∷ (replicate 15 0 ++ (172 ∷ 16 ∷ 0 ∷ 1 ∷ []))))
unfolding classify
to_netstack = refl

forwarded : classify (69 ∷ replicate 19 0) 2886729729 0 ≡ some (forward (69 ∷ replicate 19 0))
unfolding classify
forwarded = refl
