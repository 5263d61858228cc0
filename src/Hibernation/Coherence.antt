-- ===== src/Hibernation/Coherence.antt =====
-- The rows and the machine after a pass of src/octw/orchestrator/hibernation.py: a tenant that its row
-- calls stopped has no container.
use octw.Prelude.{
  Text, Bool, true, false, List, [], ◌∷◌, ◌≡◌, arith, Bool-cases, inl, inr, All, All-weaken, subst,
}
use octw.Exec.{ok, err, not_found, Op, Result-cases, continue}
use octw.Config.{Settings}
use octw.Models.Tenant.{Uuid, Time, TenantStatus, is_running, is_paused}
use octw.Platform.{Platform}
use octw.Orchestrator.Names.{container_name}
use octw.Orchestrator.Containers.{stop_container, pause_container, status_running}
use octw.Orchestrator.Laws.{DockerLaws}
use octw.Orchestrator.Lifecycle.{stop_container-absent}
use octw.Db.{TenantRow}
use octw.World.{World}
use octw.Hibernation.Scheduler.{sweep, check_running, check_paused, check_rows, check_idle_tenants}

ok-inj : (xs ys : List TenantRow) → ok xs ≡ ok ys → xs ≡ ys
ok-inj xs ys h = cc

module _ {D : Type 0} (p : Platform D) where
  -- A tenant that its row calls stopped has no container.
  abbrev pub Honest : D → TenantRow → Type 0
  Honest d r =
      r.status ≡ TenantStatus.stopped
      → p.containers_get (container_name r.tenant_id) d ≡ err not_found

  -- A container that is not there is not there afterwards.
  abbrev pub AbsentStays : D → D → Type 0
  AbsentStays d d' =
      (n : Text) → p.containers_get n d ≡ err not_found → p.containers_get n d' ≡ err not_found

  Honest-later : (d d' : D) (r : TenantRow) → AbsentStays d d' → Honest d r → Honest d' r
  Honest-later d d' r a h e = a (container_name r.tenant_id) (h e)

  module _ (selected : TenantRow → Bool) (act : TenantRow → Op D TenantRow) where
    module _ (stays : (r : TenantRow) (d : D) → AbsentStays d (act r d).1) where
      sweep-AbsentStays :
          (rows : List TenantRow) (d : D) → AbsentStays d (sweep p selected act rows d).1
      unfolding sweep
      sweep-AbsentStays [] d n h = h
      sweep-AbsentStays (r ∷ rows) d n h = elim (Bool-cases (selected r)) [
        | inl e ↦
            let first = stays r d n h in
            ground (arith, e, first, sweep-AbsentStays rows (act r d).1 n first)
        | inr e ↦ ground (arith, e, sweep-AbsentStays rows d n h)
      ]

      sweep-Honest :
          ((r : TenantRow) (d : D) (r' : TenantRow)
            → selected r ≡ true
            → (act r d).0 ≡ ok r'
            → Honest d r
            → Honest (act r d).1 r')
          → (rows : List TenantRow) (d : D) (rows' : List TenantRow)
          → (sweep p selected act rows d).0 ≡ ok rows'
          → All (Honest d) rows
          → All (Honest (sweep p selected act rows d).1) rows'
      unfolding sweep
      sweep-Honest acts [] d rows' h a = subst (All (Honest d)) (ok-inj [] rows' h) tt
      sweep-Honest acts (r ∷ rows) d rows' h a = elim (Bool-cases (selected r)) [
        | inl e ↦
            let d1 = (act r d).1 in
            elim (Result-cases (act r d).0) [
              | inl (r', q) ↦ elim (Result-cases (sweep p selected act rows d1).0) [
                | inl (rest, z) ↦
                    rw (e, q, continue, z)
                      (subst (All (Honest (sweep p selected act rows d1).1))
                        (ok-inj (r' ∷ rest) rows' (rw (e, q, continue, z) at h))
                        (
                          Honest-later d1 _ r' (sweep-AbsentStays rows d1) (acts r d r' e q a.0),
                          sweep-Honest acts rows d1 rest z
                              (All-weaken rows (λ x. Honest-later d d1 x (stays r d)) a.1),
                        ))
                | inr (x, z) ↦ absurd (ground arith)
              ]
              | inr (x, q) ↦ absurd (ground arith)
            ]
        | inr e ↦ elim (Result-cases (sweep p selected act rows d).0) [
          | inl (rest, z) ↦
              rw (e, continue, z)
                (subst (All (Honest (sweep p selected act rows d).1))
                  (ok-inj (r ∷ rest) rows' (rw (e, continue, z) at h))
                  (
                    Honest-later d _ r (sweep-AbsentStays rows d) a.0,
                    sweep-Honest acts rows d rest z a.1,
                  ))
          | inr (x, z) ↦ absurd (ground arith)
        ]
      ]

  module _ (laws : DockerLaws p) where
    stop_container-AbsentStays : (t : Uuid) (d : D) → AbsentStays d (stop_container p t d).1
    unfolding stop_container
    stop_container-AbsentStays t d n h =
        elim (Result-cases (p.containers_get (container_name t) d)) [
          | inl (c, q) ↦ ground (
            arith,
            laws.stop_absent {m = container_name t} {c = c} {d = d} n 30 q h,
            laws.remove_absent n c false (p.container_stop c 30 d).1,
          )
          | inr (x, q) ↦ ground arith
        ]

    pause_container-AbsentStays : (t : Uuid) (d : D) → AbsentStays d (pause_container p t d).1
    unfolding pause_container
    pause_container-AbsentStays t d n h =
        elim (Result-cases (p.containers_get (container_name t) d)) [
          | inl (c, q) ↦ elim (Bool-cases (status_running c.status)) [
            | inl e ↦ ground (arith, laws.pause_absent {m = container_name t} {c = c} {d = d} n q h)
            | inr e ↦ ground arith
          ]
          | inr (x, q) ↦ ground arith
        ]

    module _ (cfg : Settings) (now : Time) where
      check_running-AbsentStays :
          (r : TenantRow) (d : D) → AbsentStays d (check_running p cfg now r d).1
      unfolding check_running
      check_running-AbsentStays r d n h = ground (
        arith,
        stop_container-AbsentStays r.tenant_id d n h,
        pause_container-AbsentStays r.tenant_id d n h,
      )

      check_paused-AbsentStays :
          (r : TenantRow) (d : D) → AbsentStays d (check_paused p cfg now r d).1
      unfolding check_paused
      check_paused-AbsentStays r d n h =
          ground (arith, stop_container-AbsentStays r.tenant_id d n h)

      check_running-Honest :
          (r : TenantRow) (d : D) (r' : TenantRow)
          → is_running r.status ≡ true
          → (check_running p cfg now r d).0 ≡ ok r'
          → Honest d r
          → Honest (check_running p cfg now r d).1 r'
      unfolding check_running
      check_running-Honest r d r' s h a e =
          ground (arith, stop_container-absent p laws r.tenant_id d)

      check_paused-Honest :
          (r : TenantRow) (d : D) (r' : TenantRow)
          → is_paused r.status ≡ true
          → (check_paused p cfg now r d).0 ≡ ok r'
          → Honest d r
          → Honest (check_paused p cfg now r d).1 r'
      unfolding check_paused
      check_paused-Honest r d r' s h a e =
          ground (arith, stop_container-absent p laws r.tenant_id d)

      check_rows-Honest :
          (rows : List TenantRow) (d : D) (rows' : List TenantRow)
          → (check_rows p cfg now rows d).0 ≡ ok rows'
          → All (Honest d) rows
          → All (Honest (check_rows p cfg now rows d).1) rows'
      unfolding check_rows
      check_rows-Honest rows d rows' h a =
          let act = check_running p cfg now in
          let d1 = (sweep p (λ r. is_running r.status) act rows d).1 in
          elim (Result-cases (sweep p (λ r. is_running r.status) act rows d).0) [
            | inl (mid, q) ↦
                rw (q, continue)
                  (sweep-Honest (λ r. is_paused r.status) (check_paused p cfg now)
                    check_paused-AbsentStays check_paused-Honest mid d1 rows'
                    (rw (q, continue) at h)
                    (sweep-Honest (λ r. is_running r.status) act check_running-AbsentStays
                      check_running-Honest rows d mid q a))
            | inr (x, q) ↦ absurd (ground arith)
          ]

    -- Under the Docker laws, if no tenant whose row says stopped has a container, then none has
    -- one after a scheduler pass that returns, the tenants that it has stopped among them.
    pub check_idle_tenants-Honest :
        (cfg : Settings) (w : World D)
        → All (Honest w.machine) w.committed.tenants
        → let (r, w') = check_idle_tenants p cfg w in
          r ≡ ok tt → All (Honest w'.machine) w'.committed.tenants
    unfolding check_idle_tenants
    check_idle_tenants-Honest cfg w a h =
        elim (Result-cases (check_rows p cfg w.session.now w.committed.tenants w.machine).0) [
          | inl (rows, q) ↦
              rw (q, continue)
                (check_rows-Honest cfg w.session.now w.committed.tenants w.machine rows q a)
          | inr (x, q) ↦ absurd (ground arith)
        ]
