-- ===== src/Dn42/Wire/RoundTrip/Messages.antt =====
-- `decode` reads back what `encode` wrote.
use landscape_rill.Base.{
  ℕ, ◌+◌, ◌^◌, ◌≡◌, ◌<◌, ◌≤◌, refl, sym, ap, ◌∙◌, true, List, [], ◌∷◌, ◌++◌, length, ltb, Result,
  ok, err, arith, Bool-cases, inl, inr,
}
use landscape_rill.Base.Bytes.{be_bytes, be_value-be_bytes}
use landscape_rill.Dn42.Message.{
  NotificationMsg, RouteRefreshMsg, Message, open_message, update, notification, keepalive, refresh,
}
use landscape_rill.Dn42.Wire.{
  WireError, too_long, header_len, max_msg_len, type_open, type_notification, type_keepalive,
  type_route_refresh, u16_at,
}
use landscape_rill.Dn42.Wire.Read.{is_long, decode_body, decode}
use landscape_rill.Dn42.Wire.Write.{frame, encode_body, sealed, encode}
use landscape_rill.Dn42.Wire.RoundTrip.Frames.{decode-frame}
use landscape_rill.Dn42.Wire.RoundTrip.AttrLists.{settled}
use landscape_rill.Dn42.Wire.RoundTrip.Opens.{IsOpen, decode_open-open_body}
use landscape_rill.Dn42.Wire.RoundTrip.Updates.{IsUpdate, decode_update-update_body}

-- A message whose parts fit their fields.
abbrev pub IsMessage : Message → Type 0
IsMessage (open_message m) = IsOpen m
IsMessage (update m) = IsUpdate m
IsMessage (notification m) = Unit
IsMessage keepalive = Unit
IsMessage (refresh m) = m.afi < 2 ^ 16

-- The message as it is read: the communities of an UPDATE stand behind its other attributes.
abbrev pub arrival : Message → Message
arrival (update m) = update (record m { attrs = settled m.attrs })
arrival (open_message m) = open_message m
arrival (notification m) = notification m
arrival keepalive = keepalive
arrival (refresh m) = refresh m

decode_body_notification :
    (m : NotificationMsg)
    → decode_body type_notification (m.code ∷ m.subcode ∷ m.payload) ≡ ok (notification m)
unfolding decode_body
decode_body_notification m =
    let two : is_long 2 (m.code ∷ m.subcode ∷ m.payload) ≡ true = ground arith in rw two

decode_body_refresh :
    (m : RouteRefreshMsg)
    → m.afi < 2 ^ 16
    → decode_body type_route_refresh (be_bytes 2 m.afi ++ (0 ∷ m.safi ∷ [])) ≡ ok (refresh m)
unfolding decode_body
decode_body_refresh m h =
    let family : u16_at 0 (be_bytes 2 m.afi ++ (0 ∷ m.safi ∷ [])) ≡ m.afi =
      be_value-be_bytes 2 m.afi h in
    rw family

-- The body of a message is read back by its type.
decode_body-encode_body :
    (m : Message) (ty : ℕ)
    → IsMessage m
    → (encode_body m).1 ≡ ok ty
    → decode_body ty (encode_body m).0 ≡ ok (arrival m)
unfolding encode_body decode_body
decode_body-encode_body (open_message m) ty is h =
    let (kind, read) = decode_open-open_body m is in
    let e : type_open ≡ ty = cc in
    ap (λ t. decode_body t (encode_body (open_message m)).0) (sym e) ∙ read
decode_body-encode_body (update m) ty is h =
    let (kind, read) = decode_update-update_body m ty is h in
    ap (λ t. decode_body t (encode_body (update m)).0) kind ∙ read
decode_body-encode_body (notification m) ty is h =
    let e : type_notification ≡ ty = cc in
    ap (λ t. decode_body t (encode_body (notification m)).0) (sym e) ∙ decode_body_notification m
decode_body-encode_body keepalive ty is h =
    let e : type_keepalive ≡ ty = cc in ap (λ t. decode_body t []) (sym e)
decode_body-encode_body (refresh m) ty is h =
    let e : type_route_refresh ≡ ty = cc in
    ap (λ t. decode_body t (encode_body (refresh m)).0) (sym e) ∙ decode_body_refresh m is

-- What `encode` did where it succeeded.
pub record Sent (m : Message) (out : List ℕ) : Type 0 where
  pub kind : ℕ
  pub body : List ℕ
  pub appended : (encode m out).0 ≡ out ++ frame kind body
  pub short : 19 + length body ≤ 4096
  pub read : decode (frame kind body) ≡ ok (arrival m)

sealed_ok :
    (out body : List ℕ) (r : Result WireError ℕ)
    → (sealed out (body, r)).1 ≡ ok tt
    → (ty : ℕ) × (r ≡ ok ty)
      × ((sealed out (body, r)).0 ≡ out ++ frame ty body)
      × (19 + length body ≤ 4096)
sealed_ok out body (err e) h = cc
sealed_ok out body (ok ty) h = elim (Bool-cases (ltb max_msg_len (header_len + length body))) [
  | inl long ↦ let lost : (sealed out (body, ok ty)).1 ≡ err too_long = rw long in cc
  | inr fits ↦ (ty, refl, rw fits, ground (arith, fits))
]

pub encode-Sent : (m : Message) (out : List ℕ) → IsMessage m → (encode m out).1 ≡ ok tt → Sent m out
unfolding encode
encode-Sent m out is h =
    let body = (encode_body m).0 in
    let (ty, kind, appended, short) = sealed_ok out body (encode_body m).1 h in
    record {
      kind = ty;
      body = body;
      appended = appended;
      short = short;
      read = decode-frame ty body (omega (arith, short)) ∙ decode_body-encode_body m ty is kind;
    }

-- Where `encode` succeeds on a message whose parts fit their fields, it appends at most 4096 bytes,
-- from which `decode` reads the message, the communities of an UPDATE behind its other attributes.
pub decode-encode_whole :
    (m : Message) (out : List ℕ)
    → IsMessage m
    → (encode m out).1 ≡ ok tt
    → (bytes : List ℕ) × ((encode m out).0 ≡ out ++ bytes)
      × (length bytes ≤ 4096)
      × (decode bytes ≡ ok (arrival m))
decode-encode_whole m out is h =
    let s = encode-Sent m out is h in
    (frame s.kind s.body, s.appended, omega (arith, s.short), s.read)
