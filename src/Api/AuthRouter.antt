-- ===== src/Api/AuthRouter.antt =====
-- src/octw/api/routers/auth_router.py: login by a token that is sent to an address.
use octw.Prelude.{
  ℕ, ◌+◌, ◌*◌, Text, Option, none, some, ltb, if◌then◌else◌, Dict, lookup, insert, remove,
}
use octw.Exec.{Result, ok, err, http, Op, pure, lift, gets, ◌>>=◌, ◌>>◌}
use octw.Config.{Settings}
use octw.Models.Tenant.{Time}
use octw.Uuid.{uuid_text}
use octw.Vault.Envelope.{Crypto}
use octw.World.{World, in_session, commit}
use octw.Api.Auth.{Tokens, create_access_token, get_or_create_user}

-- An entry of `_pending_tokens`.
pub record Pending : Type 0 where
  pub email : Text
  pub expires : Time

-- The world, the tokens that are pending in the process, and how many have been drawn.
pub record Site (D : Type 0) : Type 0 where
  pub world : World D
  pub pending : Dict Pending
  pub drawn : ℕ

pub record SessionResponse : Type 0 where
  pub access_token : Text
  pub user_id : Text
  pub email : Text

-- `if not pending or pending["expires"] < now: raise`
abbrev pub check_pending : Time → Option Pending → Result Pending
check_pending now none = err (http 401)
check_pending now (some e) = if ltb e.expires now then err (http 401) else ok e

module _ {D : Type 0} where
  abbrev pub in_world : {A : Type 0} → Op (World D) A → Op (Site D) A
  in_world m s = let (r, w) = m s.world in (r, record s { world = w })

  -- `_pending_tokens.pop(token, None)`
  abbrev pub pop_pending : Text → Op (Site D) (Option Pending)
  pop_pending token s = (ok (lookup token s.pending), record s { pending = remove token s.pending })

  module _ (tokens : Tokens) where
    -- The token that is sent.
    unfoldable pub login : Text → Op (Site D) Text
    login email s =
        let token = tokens.token_urlsafe s.drawn in
        let entry : Pending = record { email = email; expires = s.world.session.now + 60 * 15 } in
        (ok token, record s { pending = insert token entry s.pending; drawn = s.drawn + 1 })

    unfoldable pub verify : Crypto → Settings → Text → Op (Site D) SessionResponse
    verify c settings token = do
      found ← pop_pending token
      now ← gets (λ s. s.world.session.now)
      entry ← lift (check_pending now found)
      user ← in_world (in_session (get_or_create_user c entry.email))
      in_world commit
      pure (record {
        access_token = create_access_token tokens settings now user.user_id user.email none none;
        user_id = uuid_text user.user_id;
        email = user.email;
      })
