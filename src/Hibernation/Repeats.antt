-- ===== src/Hibernation/Repeats.antt =====
-- src/octw/orchestrator/hibernation.py: passes that come after one another.
use octw.Prelude.{◌≤◌, List, [], ◌∷◌, ◌++◌, map, ◌≡◌, refl, ap, ◌∙◌, All, map-map}
use octw.Exec.{Result, ok, ⊤}
use octw.Config.{Settings}
use octw.Models.Tenant.{Time, TenantStatus}
use octw.Platform.{Platform}
use octw.Db.{TenantRow}
use octw.World.{World}
use octw.Hibernation.Scheduler.{check_idle_tenants, at_time, run}
use octw.Hibernation.Policy.{settle, settle_again}
use octw.Hibernation.Settles.{Outcome, settled, aborted, check_idle_tenants-Outcome}
use octw.Hibernation.Idle.{Outcome-returned, run-append}

-- The status in which the policy leaves a tenant.
abbrev pub status_at : Settings → Time → TenantRow → TenantStatus
status_at cfg now r = (settle cfg now r).status

map-status_at :
    (cfg : Settings) (now : Time) (rows : List TenantRow)
    → map (λ r. r.status) (map (settle cfg now) rows) ≡ map (status_at cfg now) rows
map-status_at cfg now [] = refl
map-status_at cfg now (r ∷ rows) = cc (map-status_at cfg now rows)

module _ {D : Type 0} (p : Platform D) (cfg : Settings) where
  -- A pass at an earlier time changes nothing of what the policy says later.
  Outcome-status_at :
      (later : Time) {w w' : World D} {r : Result ⊤}
      → Outcome p cfg w w' r
      → w.session.now ≤ later
      → map (status_at cfg later) w'.committed.tenants
        ≡ map (status_at cfg later) w.committed.tenants
  Outcome-status_at later {w = w} (settled e) h =
      ap (λ db. map (status_at cfg later) db.tenants) e
      ∙ map-map (status_at cfg later) (settle cfg w.session.now) w.committed.tenants
          (λ r. settle_again cfg w.session.now later r h)
  Outcome-status_at later (aborted x e) h = ap (λ db. map (status_at cfg later) db.tenants) e

  run-status_at :
      (later : Time) (times : List Time) (w : World D)
      → All (λ t. t ≤ later) times
      → map (status_at cfg later) (run p cfg times w).committed.tenants
        ≡ map (status_at cfg later) w.committed.tenants
  unfolding run
  run-status_at later [] w h = refl
  run-status_at later (t ∷ times) w h =
      run-status_at later times (check_idle_tenants p cfg (at_time p t w)).1 h.1
      ∙ Outcome-status_at later (check_idle_tenants-Outcome p cfg (at_time p t w)) h.0

  -- Once a pass has returned, every committed tenant has the status that the policy gives its row
  -- from before all the passes, at the time of this pass: the passes at earlier times, as many as
  -- there were and whether they returned or raised, make no difference.
  pub run-statuses :
      (times : List Time) (now : Time) (w : World D)
      → All (λ t. t ≤ now) times
      → (check_idle_tenants p cfg (at_time p now (run p cfg times w))).0 ≡ ok tt
      → map (λ r. r.status) (run p cfg (times ++ now ∷ []) w).committed.tenants
        ≡ map (λ r. (settle cfg now r).status) w.committed.tenants
  run-statuses times now w earlier h =
      let before = at_time p now (run p cfg times w) in
      ap (λ w'. map (λ r. r.status) w'.committed.tenants) (run-append p cfg times now w)
      ∙ ap (map (λ r. r.status))
          (Outcome-returned p cfg (check_idle_tenants-Outcome p cfg before) h)
      ∙ map-status_at cfg now before.committed.tenants
      ∙ run-status_at now times w earlier
