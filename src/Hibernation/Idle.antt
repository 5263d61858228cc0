-- ===== src/Hibernation/Idle.antt =====
-- src/octw/orchestrator/hibernation.py: how long a tenant may be idle and awake.
use octw.Prelude.{◌+◌, ◌≤◌, List, [], ◌∷◌, ◌++◌, map, ◌≡◌, refl, ap, All, arith}
use octw.Exec.{Result, ok, ⊤}
use octw.Config.{Settings}
use octw.Models.Tenant.{Time, TenantStatus, running, paused, provisioning, stopped, error, deleting}
use octw.Platform.{Platform}
use octw.Db.{TenantRow}
use octw.World.{World}
use octw.Hibernation.Scheduler.{last_active, check_idle_tenants, at_time, run}
use octw.Hibernation.Policy.{decide, carry_out, settle}
use octw.Hibernation.Settles.{Outcome, settled, aborted, check_idle_tenants-Outcome}

-- A tenant that runs has been active within the pause time, and a paused one within the stop time.
abbrev Recent : Settings → Time → Time → TenantStatus → Type 0
Recent cfg now last running = now ≤ last + cfg.idle_pause_seconds
Recent cfg now last paused = now ≤ last + cfg.idle_stop_seconds
Recent cfg now last _ = Unit

abbrev pub Rested : Settings → Time → TenantRow → Type 0
Rested cfg now r = Recent cfg now (last_active r) r.status

decided-Rested :
    (cfg : Settings) (now : Time) (r : TenantRow) (s : TenantStatus)
    → r.status ≡ s
    → Rested cfg now (carry_out now (decide cfg now (last_active r) s) r)
unfolding decide
decided-Rested cfg now r running e = ground arith
decided-Rested cfg now r paused e = ground arith
decided-Rested cfg now r provisioning e = rw e tt
decided-Rested cfg now r stopped e = rw e tt
decided-Rested cfg now r error e = rw e tt
decided-Rested cfg now r deleting e = rw e tt

All-settle :
    (cfg : Settings) (now : Time) (rows : List TenantRow)
    → All (Rested cfg now) (map (settle cfg now) rows)
All-settle cfg now [] = tt
All-settle cfg now (r ∷ rows) = (decided-Rested cfg now r r.status refl, All-settle cfg now rows)

module _ {D : Type 0} (p : Platform D) (cfg : Settings) where
  pub Outcome-returned :
      {w w' : World D} {r : Result ⊤}
      → Outcome p cfg w w' r
      → r ≡ ok tt
      → w'.committed.tenants ≡ map (settle cfg w.session.now) w.committed.tenants
  Outcome-returned (settled e) h = ap (λ db. db.tenants) e
  Outcome-returned (aborted x e) h = cc

  pub run-append :
      (times : List Time) (now : Time) (w : World D)
      → run p cfg (times ++ now ∷ []) w
        ≡ (check_idle_tenants p cfg (at_time p now (run p cfg times w))).1
  unfolding run
  run-append [] now w = refl
  run-append (t ∷ times) now w = run-append times now _

  -- Once the last pass of the scheduler's loop has returned, whatever became of the passes before
  -- it, every tenant that is committed as running has been active within the pause time, and every
  -- one that is committed as paused within the stop time.
  pub run-Rested :
      (times : List Time) (now : Time) (w : World D)
      → (check_idle_tenants p cfg (at_time p now (run p cfg times w))).0 ≡ ok tt
      → All (Rested cfg now) (run p cfg (times ++ now ∷ []) w).committed.tenants
  run-Rested times now w h =
      let before = at_time p now (run p cfg times w) in
      let after = Outcome-returned (check_idle_tenants-Outcome p cfg before) h in
      rw (run-append times now w, after) (All-settle cfg now before.committed.tenants)
