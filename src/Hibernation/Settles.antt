-- ===== src/Hibernation/Settles.antt =====
-- src/octw/orchestrator/hibernation.py carries out the policy: a pass that goes through has settled
-- every tenant, and a pass that raises has committed nothing.
use octw.Prelude.{
  Bool, true, List, [], ◌∷◌, map, ◌≡◌, refl, ◌∙◌, arith, if◌then◌else◌, Bool-cases, inl, inr,
}
use octw.Exec.{Exc, Result, ok, err, Op, ⊤, Result-cases, continue}
use octw.Config.{Settings}
use octw.Models.Tenant.{Time, is_running, is_paused}
use octw.Platform.{Platform}
use octw.Db.{TenantRow}
use octw.World.{World}
use octw.Hibernation.Scheduler.{sweep, check_running, check_paused, check_rows, check_idle_tenants}
use octw.Hibernation.Policy.{decide, settle}

module _ (cfg : Settings) (now : Time) where
  abbrev first : TenantRow → TenantRow
  first r = if is_running r.status then settle cfg now r else r

  abbrev second : TenantRow → TenantRow
  second r = if is_paused r.status then settle cfg now r else r

  -- A row that the first loop pauses is not yet due in the second.
  second-first : (r : TenantRow) → second (first r) ≡ settle cfg now r
  unfolding decide
  second-first r = ground arith

  map-second-first :
      (rows : List TenantRow) → map second (map first rows) ≡ map (settle cfg now) rows
  map-second-first [] = refl
  map-second-first (r ∷ rows) = cc (second-first r, map-second-first rows)

module _ {D : Type 0} (p : Platform D) where
  -- A pass that returns has done to each selected row what the action does.
  sweep-maps :
      (selected : TenantRow → Bool) (act : TenantRow → Op D TenantRow) (f : TenantRow → TenantRow)
      → ((r : TenantRow) (d : D) (r' : TenantRow)
          → selected r ≡ true
          → (act r d).0 ≡ ok r'
          → r' ≡ f r)
      → (rows : List TenantRow) (d : D) (rows' : List TenantRow)
      → (sweep p selected act rows d).0 ≡ ok rows'
      → rows' ≡ map (λ r. if selected r then f r else r) rows
  unfolding sweep
  sweep-maps selected act f acts [] d rows' h = cc
  sweep-maps selected act f acts (r ∷ rows) d rows' h = elim (Bool-cases (selected r)) [
    | inl e ↦ elim (Result-cases (act r d).0) [
      | inl (r', q) ↦ elim (Result-cases (sweep p selected act rows (act r d).1).0) [
        | inl (rest, z) ↦ rw e (
            ground (arith, acts r d r' e q, sweep-maps selected act f acts rows (act r d).1 rest z))
        | inr (x, z) ↦ absurd (ground arith)
      ]
      | inr (x, q) ↦ absurd (ground arith)
    ]
    | inr e ↦ elim (Result-cases (sweep p selected act rows d).0) [
      | inl (rest, z) ↦ rw e (ground (arith, sweep-maps selected act f acts rows d rest z))
      | inr (x, z) ↦ absurd (ground arith)
    ]
  ]

  module _ (cfg : Settings) (now : Time) where
    running-settles :
        (r : TenantRow) (d : D) (r' : TenantRow)
        → is_running r.status ≡ true
        → (check_running p cfg now r d).0 ≡ ok r'
        → r' ≡ settle cfg now r
    unfolding check_running decide
    running-settles r d r' s h = ground arith

    paused-settles :
        (r : TenantRow) (d : D) (r' : TenantRow)
        → is_paused r.status ≡ true
        → (check_paused p cfg now r d).0 ≡ ok r'
        → r' ≡ settle cfg now r
    unfolding check_paused decide
    paused-settles r d r' s h = ground arith

    check_rows-settles :
        (rows : List TenantRow) (d : D) (rows' : List TenantRow)
        → (check_rows p cfg now rows d).0 ≡ ok rows'
        → rows' ≡ map (settle cfg now) rows
    unfolding check_rows
    check_rows-settles rows d rows' h =
        elim (Result-cases
          (sweep p (λ r. is_running r.status) (check_running p cfg now) rows d).0) [
            | inl (mid, q) ↦
                sweep-maps _ (check_paused p cfg now) (settle cfg now) paused-settles mid _ rows'
                  (rw (q, continue) at h)
                ∙ rw
                    (sweep-maps _ (check_running p cfg now) (settle cfg now) running-settles rows d
                      mid q)
                    (map-second-first cfg now rows)
            | inr (x, q) ↦ absurd (ground arith)
          ]

  -- What a pass has committed: every tenant is settled and nothing else has changed, or the pass has
  -- raised and nothing has changed.
  pub data Outcome (cfg : Settings) (w w' : World D) : Result ⊤ → Type 0 where
    settled :
        w'.committed
          ≡ record w.committed { tenants = map (settle cfg w.session.now) w.committed.tenants }
        → Outcome cfg w w' (ok tt)
    aborted : (e : Exc) → w'.committed ≡ w.committed → Outcome cfg w w' (err e)

  -- A scheduler pass that returns has committed exactly the policy's decision for each tenant, and
  -- one that raises has committed nothing.
  pub check_idle_tenants-Outcome :
      (cfg : Settings) (w : World D)
      → let (r, w') = check_idle_tenants p cfg w in Outcome cfg w w' r
  unfolding check_idle_tenants
  check_idle_tenants-Outcome cfg w =
      elim (Result-cases (check_rows p cfg w.session.now w.committed.tenants w.machine).0) [
        | inl (rows, q) ↦
            rw (q, continue)
              (settled
                (rw (check_rows-settles cfg w.session.now w.committed.tenants w.machine rows q)))
        | inr (x, q) ↦ rw (q, continue) (aborted x refl)
      ]
