-- ===== src/Api/Signs.antt =====
-- src/octw/api/routers/auth_router.py: `verify` as a request of the control plane, which keeps every
-- invariant of the committed database.
use octw.Prelude.{Text, Option, none, some, arith}
use octw.Exec.{Op}
use octw.Config.{Settings}
use octw.Db.{Db, Session, UserRow, Invariant, everywhere}
use octw.Vault.Envelope.{Crypto}
use octw.World.{World}
use octw.Api.Auth.{Tokens, row_or_create, get_or_create_user}
use octw.Api.AuthRouter.{Site, SessionResponse, verify}
use octw.Api.Requests.{in_request}

module _ (c : Crypto) {P : Db → Type 0} (inv : Invariant everywhere P) where
  row_or_create-keeps :
      (email : Text) (o : Option UserRow) (s : Session)
      → P s.db
      → P (row_or_create c email o s).1.db
  unfolding row_or_create
  row_or_create-keeps email none s v = grind (arith, inv.adds_user)
  row_or_create-keeps email (some row) s v = v

  get_or_create_user-keeps :
      (email : Text) (s : Session) → P s.db → P (get_or_create_user c email s).1.db
  unfolding get_or_create_user
  get_or_create_user-keeps email s v = grind (arith, row_or_create-keeps)

module _ {D : Type 0} (c : Crypto) (settings : Settings) where
  -- `verify` with the tokens that are pending on a site.
  abbrev pub verify_at : Tokens → Text → Site D → Op (World D) SessionResponse
  verify_at tokens token site w =
      let (r, after) = verify tokens c settings token (record site { world = w }) in
      (r, after.world)

  module _ {P : Db → Type 0} (inv : Invariant everywhere P) where
    verify_at-keeps :
        (tokens : Tokens) (token : Text) (site : Site D) (w : World D)
        → P w.session.db
        → P w.committed
        → P (verify_at tokens token site w).1.committed
    unfolding verify
    verify_at-keeps tokens token site w v k = grind (arith, get_or_create_user-keeps c inv)

    pub verified-keeps :
        (tokens : Tokens) (token : Text) (site : Site D) (w : World D)
        → P w.committed
        → P (in_request (verify_at tokens token site) w).1.committed
    verified-keeps tokens token site w k = verify_at-keeps tokens token site _ k k
