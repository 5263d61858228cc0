-- ===== src/Api/Auth.antt =====
-- src/octw/api/auth.py: the tokens that are made and read, and the user of an address. PyJWT and the
-- source of random tokens are parameters.
use octw.Prelude.{ℕ, zero, suc, ◌+◌, ◌-◌, ◌*◌, Text, [], ◌∷◌, Option, none, some}
use octw.Exec.{
  Result, ok, err, http, value_error, key_error, Op, pure, raise, lift, gets, ◌>>=◌, ◌>>◌,
}
use octw.Config.{Settings}
use octw.Models.Tenant.{Uuid, Time}
use octw.Uuid.{uuid_text}
use octw.Uuid.Parse.{uuid_of_text}
use octw.Db.{Session, UserRow, in_db, add_user, users_by_email, scalar_one_or_none}
use octw.Vault.Envelope.{Crypto, uuid4}
use octw.Api.Guard.{TokenPayload}

-- The payload of a token.
pub record Claims : Type 0 where
  pub sub : Text
  pub email : Text
  pub exp : Time
  pub tid : Option Text

-- What a token that is read holds; its values are texts.
pub record Payload : Type 0 where
  pub sub : Option Text
  pub email : Option Text
  pub tid : Option Text

-- `jwt.encode(payload, secret, algorithm)`, `jwt.decode(token, secret, [algorithm])` at a time, where
-- `none` is a `PyJWTError`, and the n-th draw from `secrets.token_urlsafe(32)`.
pub record Tokens : Type 0 where
  pub encode : Claims → Text → Text → Text
  pub decode : Text → Text → Text → Time → Option Payload
  pub token_urlsafe : ℕ → Text

pub data ℤ : Type 0 where
  pos negsuc : ℕ → ℤ

-- `expires_minutes or settings.jwt_expire_minutes`
abbrev pub minutes_or : Option ℤ → ℕ → ℤ
minutes_or none d = pos d
minutes_or (some (pos zero)) d = pos d
minutes_or (some (pos (suc n))) d = pos (suc n)
minutes_or (some (negsuc n)) d = negsuc n

-- `now + timedelta(minutes=m)`; a time before 1970 is 0.
abbrev pub after_minutes : Time → ℤ → Time
after_minutes now (pos n) = now + 60 * n
after_minutes now (negsuc n) = now - 60 * suc n

abbrev pub text_of : Option Uuid → Option Text
text_of none = none
text_of (some t) = some (uuid_text t)

unfoldable pub create_access_token :
    Tokens → Settings → Time → Uuid → Text → Option Uuid → Option ℤ → Text
create_access_token tokens settings now user_id email tenant_id expires_minutes =
    tokens.encode
      (record {
        sub = uuid_text user_id;
        email = email;
        exp = after_minutes now (minutes_or expires_minutes settings.jwt_expire_minutes);
        tid = text_of tenant_id;
      })
      settings.jwt_secret settings.jwt_algorithm

-- `uuid.UUID(text)`
abbrev pub parse_uuid : Text → Result Uuid
parse_uuid s = elim (uuid_of_text s) [ none ↦ err value_error | some u ↦ ok u ]

-- `data[key]`
abbrev pub or_key_error : Option Text → Result Text
or_key_error none = err key_error
or_key_error (some s) = ok s

-- `uuid.UUID(data["tid"]) if data.get("tid") else None`
abbrev pub parse_tid : Option Text → Result (Option Uuid)
parse_tid none = ok none
parse_tid (some []) = ok none
parse_tid (some (c ∷ s)) = elim (uuid_of_text (c ∷ s)) [
  | none ↦ err value_error
  | some t ↦ ok (some t)
]

-- `jwt.decode`, whose errors are answered 401.
abbrev pub or_401 : Option Payload → Result Payload
or_401 none = err (http 401)
or_401 (some payload) = ok payload

module _ {S : Type 0} (tokens : Tokens) (settings : Settings) (now : Time) where
  unfoldable pub decode_token : Text → Op S TokenPayload
  decode_token token = do
    payload ← lift (or_401 (tokens.decode token settings.jwt_secret settings.jwt_algorithm now))
    tid ← lift (parse_tid payload.tid)
    sub ← lift (or_key_error payload.sub)
    user_id ← lift (parse_uuid sub)
    email ← lift (or_key_error payload.email)
    pure (record { user_id = user_id; email = email; tid = tid })

  -- `credentials` is the token of the request's `Authorization` header, if it has one.
  unfoldable pub get_current_user : Option Text → Op S TokenPayload
  get_current_user none = raise (http 401)
  get_current_user (some token) = decode_token token

module _ (c : Crypto) where
  unfoldable pub row_or_create : Text → Option UserRow → Op Session UserRow
  row_or_create email (some row) = pure row
  row_or_create email none = do
    user_id ← uuid4 c
    now ← gets (λ s. s.now)
    let row : UserRow = record { user_id = user_id; email = email; created_at = now }
    in_db (add_user row)
    pure row

  unfoldable pub get_or_create_user : Text → Op Session UserRow
  get_or_create_user email = do
    rows ← gets (λ s. users_by_email email s.db)
    found ← lift (scalar_one_or_none rows)
    row_or_create email found
