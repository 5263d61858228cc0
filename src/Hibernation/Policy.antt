-- ===== src/Hibernation/Policy.antt =====
-- The policy that src/octw/orchestrator/hibernation.py carries out, as a function of one row.
use octw.Prelude.{◌+◌, ◌≤◌, ◌≡◌, refl, sym, ap, ◌∙◌, arith, ltb, if◌then◌else◌}
use octw.Config.{Settings}
use octw.Models.Tenant.{Time, TenantStatus, running, paused, stopped}
use octw.Db.{TenantRow}
use octw.Tenants.Rows.{set_stopped, set_paused}
use octw.Hibernation.Scheduler.{last_active}

pub data Decision : Type 0 where
  stay pause stop : Decision

-- By the status of a tenant and the time of its last activity.
unfoldable pub decide : Settings → Time → Time → TenantStatus → Decision
decide cfg now last running =
    if ltb (last + cfg.idle_stop_seconds) now
    then stop
    else if ltb (last + cfg.idle_pause_seconds) now
    then pause
    else stay
decide cfg now last paused = if ltb (last + cfg.idle_stop_seconds) now then stop else stay
decide cfg now last _ = stay

abbrev pub carry_out : Time → Decision → TenantRow → TenantRow
carry_out now stay r = r
carry_out now pause r = set_paused now r
carry_out now stop r = set_stopped now r

abbrev pub settle : Settings → Time → TenantRow → TenantRow
settle cfg now r = carry_out now (decide cfg now (last_active r) r.status) r

abbrev status_after : Decision → TenantStatus → TenantStatus
status_after stay s = s
status_after pause s = paused
status_after stop s = stopped

status_again :
    (cfg : Settings) (now later last : Time) (s : TenantStatus)
    → now ≤ later
    → let s' = status_after (decide cfg now last s) s in
      status_after (decide cfg later last s') s' ≡ status_after (decide cfg later last s) s
unfolding decide
status_again cfg now later last running h = ground arith
status_again cfg now later last paused h = ground arith
status_again cfg now later last _ h = refl

status-carry_out :
    (now : Time) (d : Decision) (r : TenantRow)
    → (carry_out now d r).status ≡ status_after d r.status
status-carry_out now stay r = refl
status-carry_out now pause r = refl
status-carry_out now stop r = refl

last_active-carry_out :
    (now : Time) (d : Decision) (r : TenantRow) → last_active (carry_out now d r) ≡ last_active r
last_active-carry_out now stay r = refl
last_active-carry_out now pause r = refl
last_active-carry_out now stop r = refl

status-settle :
    (cfg : Settings) (now : Time) (r : TenantRow)
    → (settle cfg now r).status ≡ status_after (decide cfg now (last_active r) r.status) r.status
status-settle cfg now r = status-carry_out now _ r

last_active-settle :
    (cfg : Settings) (now : Time) (r : TenantRow) → last_active (settle cfg now r) ≡ last_active r
last_active-settle cfg now r = last_active-carry_out now _ r

-- A decision of the policy after an earlier one, at no earlier time, leaves a tenant in the status
-- in which it alone would have left it.
pub settle_again :
    (cfg : Settings) (now later : Time) (r : TenantRow)
    → now ≤ later
    → (settle cfg later (settle cfg now r)).status ≡ (settle cfg later r).status
settle_again cfg now later r h =
    status-settle cfg later (settle cfg now r)
    ∙ rw (last_active-settle cfg now r, status-settle cfg now r)
        (status_again cfg now later (last_active r) r.status h)
    ∙ sym (status-settle cfg later r)

decide_active :
    (cfg : Settings) (now last : Time) (s : TenantStatus)
    → cfg.idle_pause_seconds ≤ cfg.idle_stop_seconds
    → now ≤ last + cfg.idle_pause_seconds
    → decide cfg now last s ≡ stay
unfolding decide
decide_active cfg now last running h k = ground arith
decide_active cfg now last paused h k = ground arith
decide_active cfg now last _ h k = refl

-- A tenant active within the pause time is left as it is, if that time is not longer than the stop
-- time.
settle_active :
    (cfg : Settings) (now : Time) (r : TenantRow)
    → cfg.idle_pause_seconds ≤ cfg.idle_stop_seconds
    → now ≤ last_active r + cfg.idle_pause_seconds
    → settle cfg now r ≡ r
settle_active cfg now r h k =
    ap (λ d. carry_out now d r) (decide_active cfg now (last_active r) r.status h k)
