-- ===== src/Lib.antt =====
-- landscape-rill, a mesh VPN node and coordinator with a BGP leg into dn42: its routing table, its
-- BGP speaker and its frame format.
--
-- The parts and how they interact. A node keeps one route engine (rill-core/src/route). The mesh
-- control plane, the BGP sessions (rill-dn42) and the tailnet insert routes into it and withdraw
-- them; the packet path asks it for the best route of a destination. A BGP session feeds received
-- messages to the state machine (fsm), and the UPDATEs of an established session, through the
-- import policy (policy), to the Loc-RIB (rib), whose changes the runtime mirrors into the route
-- engine. Packets between nodes travel in frames (rill-core/src/frame): a header with a route MAC
-- that relays check, and a payload sealed by an AEAD.
--
-- Files and sources:
--   Base     lists, options and results, bytes, packed layouts, association lists, stable sorts.
--   Route    rill-core/src/route. Prefix: `Prefix`, whose 16 bytes are the number that
--            `u128::from_be_bytes` makes of them. Entry: `RouteSource`, `RouteVia`, `RouteEntry`.
--            Table: `LpmTable`. Engine: `RouteEngine`, which is its table. Resolver:
--            `DefaultRouteResolver` (route/default.rs).
--   Crypto   rill-core/src/crypto: `seal_in_place` and `open_in_place`, with the cipher of the
--            chacha20poly1305 crate as a parameter.
--   Frame    rill-core/src/frame. Header: `MeshFrameHeader` and `WireHeader`, `encode`, `decode`,
--            `auth_input`, `decrement_ttl`. Sealed: `build_frame`, `validate_frame`, `open_frame`,
--            `open_frame_in_place`,
--            with the route MAC as a parameter. Unsealed: `build_unsealed_frame`,
--            `build_handshake_frame`, `PathProbePayload`. Replay: `ReplayWindow`, whose words are numbers
--            on which a bit is tested by division and set by addition.
--   Control  rill-core/src/control. Registry: `Registry`, with the signer and the readers of `u8` and
--            `IpAddr` as parameters, and the arguments of `register` as a record. Acl: `AclPolicy`.
--            Session: `ClientSession`. Revoke: `RevokeList`. Challenge: the tags, over the crates
--            for X25519, HKDF and HMAC as parameters.
--   Coord    rill-coord/src. Liveness: `Liveness`. Keys: `KeyManager`, over the HKDF crate as a
--            parameter.
--   Probe    rill-core/src/probe.rs: `ProbePacket`.
--   Dn42     rill-dn42/src. Message: the message types of wire. Wire: its codec, Wire/Write `encode`,
--            Wire/Read `decode`, Wire/Reader `FrameReader`. BgpPath: `extract_announced` and
--            `extract_withdrawn` of rib. Policy: `ImportPolicy`. Rib: `LocRib`. Fsm: `BgpFsm`.
--            Session: `export_messages`, `queue_action` and `classify` of session.
--
-- How state is modelled. A method with `&mut self` is a function from the state to the new state,
-- with its result. `LocRib::apply` changes the table, the policy and the outcome together: they
-- are one record, and each of its two loops is structural recursion over the extracted routes. The
-- `while` loops of the BGP readers run on fuel, a round for each byte that is left, and one that runs
-- out ends in an error of its own, which the results below exclude; a slice out of bounds ends in
-- `panicked`. A `HashMap` is an association list with distinct keys; no theorem
-- depends on the order in which it is walked. A `String` is the list of its bytes. The events of
-- `BgpFsm` are a list, the newest first, of what its driver can call.
--
-- Machine integers. The model is that of a release build, as the workflows under .github make it:
-- no overflow checks, and the amount of a u128 shift masked to seven bits. Addresses are numbers below
-- 2 ^ 128 and shifts are written out on them. The mask matters in one place: `Prefix::contains` of
-- ::/0 and an IPv6 /128 shifts by 128, that is by 0, so ::/0 matches no IPv6 address but :: and covers
-- no other /128. `checked_contains` is the build with the checks, which panics there. The
-- fields of a header are bounded by their widths; `wrapping_sub` of the TTL and the cast of the
-- payload length to u16 wrap as in the source. The counter of accepted prefixes is not bounded: it
-- equals the number of stored paths.
--
-- Not modelled: printing of prefixes, logging, metrics; the driver loop of a session and the
-- tunnel of rill-dn42; the handshake of rill-core; rill-mesh, the other parts of rill-coord,
-- rill-node, rill-ts2021 and rilld, which are mostly drivers around sockets, timers and storage.
pub mod Base
pub mod Route
pub mod Control
pub mod Coord
pub mod Crypto
pub mod Frame
pub mod Probe
pub mod Dn42
