-- ===== src/Api/Tokens.antt =====
-- src/octw/api/auth.py: a token that is made and then read.
use octw.Prelude.{◌<◌, Text, Option, none, some, [], ◌∷◌, ◌≡◌, refl, arith}
use octw.Exec.{ok, continue}
use octw.Config.{Settings}
use octw.Models.Tenant.{Uuid, Time}
use octw.Uuid.{uuid_text}
use octw.Uuid.Parse.{uuid_of_text, uuid_of_text-nil}
use octw.Uuid.Distinct.{pow16}
use octw.Uuid.RoundTrip.{uuid_of_text-uuid_text}
use octw.Api.Auth.{
  Claims, Payload, Tokens, ℤ, minutes_or, after_minutes, text_of, create_access_token, parse_uuid,
  parse_tid, decode_token,
}

abbrev pub payload_of : Claims → Payload
payload_of c = record { sub = some c.sub; email = some c.email; tid = c.tid }

-- PyJWT reads what it wrote with the same secret, before the time of expiry.
pub record TokenLaws (tokens : Tokens) : Type 0 where
  pub decode-encode :
      (c : Claims) (secret algorithm : Text) (now : Time)
      → now < c.exp
      → tokens.decode (tokens.encode c secret algorithm) secret algorithm now ≡ some (payload_of c)

-- An identifier of 128 bits, if there is one.
abbrev pub IsUuid : Option Uuid → Type 0
IsUuid none = Unit
IsUuid (some t) = t < pow16 32

pub parse_uuid-uuid_text : (u : Uuid) → u < pow16 32 → parse_uuid (uuid_text u) ≡ ok u
parse_uuid-uuid_text u h = rw (parse_uuid, uuid_of_text-uuid_text u h) refl

parse_tid-cons : (s : Text) (t : Uuid) → uuid_of_text s ≡ some t → parse_tid (some s) ≡ ok (some t)
parse_tid-cons [] t h = absurd (ground (arith, uuid_of_text-nil))
parse_tid-cons (c ∷ s) t h = rw (parse_tid, h) refl

parse_tid-text_of : (o : Option Uuid) → IsUuid o → parse_tid (text_of o) ≡ ok o
parse_tid-text_of none h = refl
parse_tid-text_of (some t) h = parse_tid-cons (uuid_text t) t (uuid_of_text-uuid_text t h)

module _ {S : Type 0} (tokens : Tokens) (laws : TokenLaws tokens) (settings : Settings) where
  -- Under the law of PyJWT, a token that `create_access_token` makes for UUIDs below 2 ^ 128 is
  -- read back by `decode_token`, before it expires, as the same user, address and tenant.
  pub decode_token-create_access_token :
      (made now : Time) (user_id : Uuid) (email : Text) (tenant_id : Option Uuid) (m : Option ℤ)
      (s : S)
      → user_id < pow16 32
      → IsUuid tenant_id
      → now < after_minutes made (minutes_or m settings.jwt_expire_minutes)
      → decode_token tokens settings now
          (create_access_token tokens settings made user_id email tenant_id m)
          s
        ≡ (ok (record { user_id = user_id; email = email; tid = tenant_id }), s)
  unfolding decode_token create_access_token
  decode_token-create_access_token made now user_id email tenant_id m s u t h =
      let claims : Claims = record {
        sub = uuid_text user_id;
        email = email;
        exp = after_minutes made (minutes_or m settings.jwt_expire_minutes);
        tid = text_of tenant_id;
      } in
      rw
        (
          laws.decode-encode claims settings.jwt_secret settings.jwt_algorithm now h,
          parse_tid-text_of tenant_id t,
          continue,
          parse_uuid-uuid_text user_id u,
        )
        refl
