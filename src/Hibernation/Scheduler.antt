-- ===== src/Hibernation/Scheduler.antt =====
-- src/octw/orchestrator/hibernation.py. The rows that a query returns are the objects of the session,
-- so that an assignment to one of them changes the row of the table: a loop over a query's rows is a
-- pass over the table that acts on the rows that the query selects.
use octw.Prelude.{◌-◌, Bool, none, some, List, [], ◌∷◌, ltb, if◌then◌else◌}
use octw.Exec.{⊤, Op, pure, gets, modify, ◌>>=◌, ◌>>◌}
use octw.Config.{Settings}
use octw.Models.Tenant.{Time, is_running, is_paused}
use octw.Platform.{Platform}
use octw.Orchestrator.Containers.{stop_container, pause_container}
use octw.Db.{TenantRow}
use octw.World.{World, in_machine, commit}
use octw.Tenants.Rows.{set_stopped, set_paused}

-- `row.last_activity_at or row.created_at`
abbrev pub last_active : TenantRow → Time
last_active row = elim row.last_activity_at [ none ↦ row.created_at | some t ↦ t ]

module _ {D : Type 0} (p : Platform D) where
  -- A pass over the rows, which stops at the first call that raises.
  unfoldable pub sweep :
      (TenantRow → Bool) → (TenantRow → Op D TenantRow) → List TenantRow → Op D (List TenantRow)
  sweep selected act [] = pure []
  sweep selected act (row ∷ rows) = do
    row' ← if selected row then act row else pure row
    rest ← sweep selected act rows
    pure (row' ∷ rest)

  module _ (settings : Settings) (now : Time) where
    abbrev pub pause_threshold : Time
    pause_threshold = now - settings.idle_pause_seconds

    abbrev pub stop_threshold : Time
    stop_threshold = now - settings.idle_stop_seconds

    stop_row : TenantRow → Op D TenantRow
    stop_row row = do stop_container p row.tenant_id; pure (set_stopped now row)

    pause_row : TenantRow → Op D TenantRow
    pause_row row = do pause_container p row.tenant_id; pure (set_paused now row)

    -- The body of the loop over the running tenants.
    unfoldable pub check_running : TenantRow → Op D TenantRow
    unfolding stop_row pause_row
    check_running row =
        if ltb (last_active row) stop_threshold
        then stop_row row
        else if ltb (last_active row) pause_threshold
        then pause_row row
        else pure row

    -- The body of the loop over the paused tenants.
    unfoldable pub check_paused : TenantRow → Op D TenantRow
    unfolding stop_row
    check_paused row = if ltb (last_active row) stop_threshold then stop_row row else pure row

    unfoldable pub check_rows : List TenantRow → Op D (List TenantRow)
    check_rows rows = do
      rows' ← sweep (λ r. is_running r.status) check_running rows
      sweep (λ r. is_paused r.status) check_paused rows'

  abbrev put_tenants : List TenantRow → World D → World D
  put_tenants rows w = record w {
    session = record w.session { db = record w.session.db { tenants = rows } };
  }

  -- `_check_idle_tenants`, from the opening of its session to its commit.
  unfoldable pub check_idle_tenants : Settings → Op (World D) ⊤
  check_idle_tenants settings = do
    modify (λ w. record w { session = record w.session { db = w.committed } })
    now ← gets (λ w. w.session.now)
    tenants ← gets (λ w. w.session.db.tenants)
    rows ← in_machine (check_rows settings now tenants)
    modify (put_tenants rows)
    commit

  abbrev pub at_time : Time → World D → World D
  at_time now w = record w { session = record w.session { now = now } }

  -- `run`, for the times at which the loop comes round. A pass that raises is logged; its session is
  -- closed and what it had not committed is lost.
  unfoldable pub run : Settings → List Time → World D → World D
  run settings [] w = w
  run settings (now ∷ times) w = run settings times (check_idle_tenants settings (at_time now w)).1
