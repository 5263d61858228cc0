-- ===== src/Api/Login.antt =====
-- Login of src/octw/api/routers/auth_router.py as a state machine: a token that is sent admits its
-- address once, for a quarter of an hour.
use octw.Prelude.{
  ◌+◌, ◌*◌, ◌≤◌, Text, false, none, some, ◌≡◌, refl, ap, ◌∙◌, arith, ltb, Dict, lookup, remove,
  lookup-insert, lookup-remove, text_beq_iff, text_eq, find, nat_eq, All, ◌<◌, ◌≢◌, subst,
}
use octw.Exec.{Result, ok, err, http, continue}
use octw.Config.{Settings}
use octw.Models.Tenant.{Uuid, Time}
use octw.Uuid.{uuid_text}
use octw.Uuid.Distinct.{pow16}
use octw.World.{World}
use octw.Db.{UserRow, IsValid, user_exists}
use octw.Vault.Envelope.{Crypto}
use octw.Api.Auth.{Tokens, create_access_token, decode_token}
use octw.Api.Tokens.{TokenLaws, decode_token-create_access_token}
use octw.Api.Users.{by_email, get_or_create_user-Owned}
use octw.Api.AuthRouter.{Pending, Site, SessionResponse, login, verify}

gone : (token : Text) (d : Dict Pending) → lookup token (remove token d) ≡ none
gone token d = ground (arith, lookup-remove token token d, text_beq_iff token token)

module _ (tokens : Tokens) (settings : Settings) where
  -- A token that is read as a user's.
  abbrev pub Reads : Time → Text → Uuid → Text → Type 0
  Reads read token user_id email =
      decode_token tokens settings read token tt
      ≡ (ok (record { user_id = user_id; email = email; tid = none }), tt)

module _ {D : Type 0} (tokens : Tokens) (c : Crypto) (settings : Settings) where
  verify-pending :
      (token : Text) (s : Site D)
      → (verify tokens c settings token s).1.pending ≡ remove token s.pending
  unfolding verify
  verify-pending token s = ground arith

  verify-absent :
      (token : Text) (s : Site D)
      → lookup token s.pending ≡ none
      → let (r, s') = verify tokens c settings token s in
        (r ≡ err (http 401)) × (s'.world ≡ s.world)
  unfolding verify
  verify-absent token s h = rw h (refl, refl)

  -- Once `verify` has been asked for a token, whatever it answered, it answers 401 for that token
  -- and changes nothing in the world.
  pub verify-once :
      (token : Text) (s : Site D)
      → let s' = (verify tokens c settings token s).1 in
        let (r, s'') = verify tokens c settings token s' in
        (r ≡ err (http 401)) × (s''.world ≡ s'.world)
  verify-once token s =
      verify-absent token (verify tokens c settings token s).1
        (ap (lookup token) (verify-pending token s) ∙ gone token s.pending)

  -- What may happen between a login and the use of its token: logins with other tokens, the use of
  -- other tokens, and whatever changes the world, time included.
  pub data Meanwhile (token : Text) (s : Site D) : Site D → Type 0 where
    at_once : Meanwhile token s s
    logs_in :
        {s' : Site D} (email : Text)
        → Meanwhile token s s'
        → tokens.token_urlsafe s'.drawn ≢ token
        → Meanwhile token s (login tokens email s').1
    verifies :
        {s' : Site D} (other : Text)
        → Meanwhile token s s'
        → other ≢ token
        → Meanwhile token s (verify tokens c settings other s').1
    moves :
        {s' : Site D} (w : World D)
        → Meanwhile token s s'
        → Meanwhile token s (record s' { world = w })

  Meanwhile-pending :
      (token : Text) {s s' : Site D}
      → Meanwhile token s s'
      → lookup token s'.pending ≡ lookup token s.pending
  unfolding login
  Meanwhile-pending token at_once = refl
  Meanwhile-pending token (logs_in {s'} email m n) =
      let drawn = tokens.token_urlsafe s'.drawn in
      let entry : Pending = record { email = email; expires = s'.world.session.now + 60 * 15 } in
      ground (
        arith,
        lookup-insert drawn token entry s'.pending,
        text_beq_iff drawn token,
        Meanwhile-pending token m,
      )
  Meanwhile-pending token (verifies {s'} other m n) = ground (
    arith,
    verify-pending other s',
    lookup-remove other token s'.pending,
    text_beq_iff other token,
    Meanwhile-pending token m,
  )
  Meanwhile-pending token (moves w m) = Meanwhile-pending token m

  -- A session of the user whom the database has for an address, with an access token that is read
  -- as this user.
  abbrev pub Admitted : Text → Time → Result SessionResponse → World D → Type 0
  Admitted email read r w =
      (row : UserRow) × (response : SessionResponse) × (r ≡ ok response)
      × (find (by_email email) w.committed.users ≡ some row)
      × (response.email ≡ email)
      × (response.user_id ≡ uuid_text row.user_id)
      × Reads tokens settings read response.access_token row.user_id email

  -- Under the law of PyJWT, in a valid database whose users have UUIDs below 2 ^ 128, `verify` of
  -- the token that `login` sent, within a quarter of an hour and whatever happens in between but a
  -- use of this token or another login that draws it, returns the address and the identifier of
  -- the user whom the committed database then has for this address, with an access token that is
  -- read as this user until it expires, if the identifier drawn for a new user is fresh and below
  -- 2 ^ 128.
  pub verify-login :
      TokenLaws tokens
      → (email : Text) (s s' : Site D) (read : Time)
      → Meanwhile (tokens.token_urlsafe s.drawn) (login tokens email s).1 s'
      → IsValid s'.world.session.db
      → All (λ r. r.user_id < pow16 32) s'.world.session.db.users
      → c.uuid4 s'.world.session.draws < pow16 32
      → user_exists (c.uuid4 s'.world.session.draws) s'.world.session.db ≡ false
      → s'.world.session.now ≤ s.world.session.now + 60 * 15
      → read < s'.world.session.now + 60 * settings.jwt_expire_minutes
      → let (r, s'') = verify tokens c settings (tokens.token_urlsafe s.drawn) s' in
        Admitted email read r s''.world
  unfolding login verify
  verify-login laws email s s' read m v small drawn fresh h k =
      let token = tokens.token_urlsafe s.drawn in
      let now = s'.world.session.now in
      let entry : Pending = record { email = email; expires = s.world.session.now + 60 * 15 } in
      let found : lookup token s'.pending ≡ some entry =
        Meanwhile-pending token m
        ∙ ground (arith, lookup-insert token token entry s.pending, text_beq_iff token token) in
      let in_time : ltb (s.world.session.now + 60 * 15) now ≡ false = ground arith in
      let (row, (q, (f, (e, bound)))) =
        get_or_create_user-Owned c email s'.world.session v fresh small drawn in
      let response : SessionResponse = record {
        access_token = create_access_token tokens settings now row.user_id row.email none none;
        user_id = uuid_text row.user_id;
        email = row.email;
      } in
      let reads =
        decode_token-create_access_token tokens laws settings now read row.user_id row.email none
          none tt bound tt k in
      (
        row,
        response,
        rw (found, in_time, continue, q),
        rw (found, in_time, continue, q) f,
        e,
        refl,
        subst (Reads tokens settings read response.access_token row.user_id) e reads,
      )
