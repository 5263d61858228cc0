-- ===== src/Api/Internals.antt =====
-- The requests of src/octw/api/routers/internal_router.py, together: each keeps every invariant of the
-- committed database, and one that raises has committed nothing.
use octw.Prelude.{Text, ◌≡◌, arith}
use octw.Exec.{Exc, err, Op, pure, ◌>>=◌, ◌>>◌}
use octw.Config.{Settings}
use octw.Platform.{Platform}
use octw.Db.{Db, Invariant, everywhere}
use octw.Vault.Envelope.{Crypto}
use octw.Vault.Keeps.{VaultInvariant}
use octw.World.{World}
use octw.Tenants.Keeps.{wake_tenant-keeps, pause_tenant-keeps, stop_tenant-keeps}
use octw.Api.Atomic.{wake_tenant-Uncommitted, pause_tenant-Uncommitted, stop_tenant-Uncommitted}
use octw.Api.InternalRouter
use octw.Api.InternalRouter.{Status}
use octw.Api.Requests.{in_request}

-- The routes under `/internal/v1/tenants/{identifier}`.
pub data InternalRequest : Type 0 where
  ensure_running pause_if_idle stop_if_idle get_status : InternalRequest

pub data InternalAnswer : Type 0 where
  running : Text → InternalAnswer
  paused stopped : InternalAnswer
  status : Status → InternalAnswer

module _ {D : Type 0} (p : Platform D) (c : Crypto) (kek : Text) (settings : Settings) where
  unfoldable pub dispatch_internal : InternalRequest → Text → Op (World D) InternalAnswer
  dispatch_internal ensure_running identifier = do
    id ← InternalRouter.ensure_running p c kek settings identifier
    pure (running id)
  dispatch_internal pause_if_idle identifier = do
    InternalRouter.pause_if_idle p c kek settings identifier
    pure paused
  dispatch_internal stop_if_idle identifier = do
    InternalRouter.stop_if_idle p c kek settings identifier
    pure stopped
  dispatch_internal get_status identifier = do
    s ← InternalRouter.get_status p identifier
    pure (status s)

  unfoldable pub serve_internal : InternalRequest → Text → Op (World D) InternalAnswer
  serve_internal req identifier = in_request (dispatch_internal req identifier)

  -- An internal request that ends in an exception has committed nothing.
  pub serve_internal-atomic :
      (req : InternalRequest) (identifier : Text) (w : World D) (e : Exc)
      → (serve_internal req identifier w).0 ≡ err e
      → (serve_internal req identifier w).1.committed ≡ w.committed
  unfolding serve_internal dispatch_internal InternalRouter.ensure_running
      InternalRouter.pause_if_idle InternalRouter.stop_if_idle InternalRouter.get_status
  serve_internal-atomic ensure_running i w e h =
      grind (arith, wake_tenant-Uncommitted p c kek settings)
  serve_internal-atomic pause_if_idle i w e h =
      grind (arith, pause_tenant-Uncommitted p c kek settings)
  serve_internal-atomic stop_if_idle i w e h =
      grind (arith, stop_tenant-Uncommitted p c kek settings)
  serve_internal-atomic get_status i w e h = ground arith

  module _ {P : Db → Type 0} (inv : Invariant everywhere P)
      (vault : VaultInvariant everywhere c kek P) where
    pub ensure_running-keeps :
        (i : Text) (w : World D)
        → P w.session.db
        → P w.committed
        → P (InternalRouter.ensure_running p c kek settings i w).1.committed
    unfolding InternalRouter.ensure_running
    ensure_running-keeps i w v k = grind (
      arith,
      wake_tenant-keeps inv p c kek settings vault,
      wake_tenant-Uncommitted p c kek settings,
    )

    pause_if_idle-keeps :
        (i : Text) (w : World D)
        → P w.session.db
        → P w.committed
        → P (InternalRouter.pause_if_idle p c kek settings i w).1.committed
    unfolding InternalRouter.pause_if_idle
    pause_if_idle-keeps i w v k =
        grind (
          arith,
          pause_tenant-keeps inv p c kek settings,
          pause_tenant-Uncommitted p c kek settings,
        )

    stop_if_idle-keeps :
        (i : Text) (w : World D)
        → P w.session.db
        → P w.committed
        → P (InternalRouter.stop_if_idle p c kek settings i w).1.committed
    unfolding InternalRouter.stop_if_idle
    stop_if_idle-keeps i w v k =
        grind
          (arith, stop_tenant-keeps inv p c kek settings, stop_tenant-Uncommitted p c kek settings)

    pub get_status-keeps :
        (i : Text) (w : World D) → P w.committed → P (InternalRouter.get_status p i w).1.committed
    unfolding InternalRouter.get_status
    get_status-keeps i w k = ground arith

    pub serve_internal-keeps :
        (req : InternalRequest) (i : Text) (w : World D)
        → P w.committed
        → P (serve_internal req i w).1.committed
    unfolding serve_internal dispatch_internal
    serve_internal-keeps ensure_running i w k = grind (arith, ensure_running-keeps)
    serve_internal-keeps pause_if_idle i w k = grind (arith, pause_if_idle-keeps)
    serve_internal-keeps stop_if_idle i w k = grind (arith, stop_if_idle-keeps)
    serve_internal-keeps get_status i w k = grind (arith, get_status-keeps)
