-- ===== src/Tests/LifeCases.antt =====
-- The life of the sample's container, and passes of the scheduler.
use octw.Prelude.{
  All, codes, map, ◌++◌, true, none, some, [], ◌∷◌, ◌≡◌, refl, find, keep, update_where, text_beq,
  arith,
}
use octw.Exec.{ok, err, not_found}
use octw.Config.{default_settings}
use octw.Models.Tenant.{Uuid, TenantStatus}
use octw.Platform.{paused, Container, running}
use octw.Db.{Db, TenantRow, tenant_by_id}
use octw.World.{World}
use octw.Orchestrator.Names.{container_name, network_name, init_name, tenant_dir}
use octw.Orchestrator.Containers.{stop_container, pause_container, start_container}
use octw.Orchestrator.Serving.{Serves}
use octw.Orchestrator.Isolation.{names-Distinct}
use octw.Tenants.Rows.{row_to_tenant, set_stopped, set_paused}
use octw.Tenants.Service.{create_tenant, start_tenant, stop_tenant, delete_tenant}
use octw.Tenants.Runs.{Says, start_tenant-runs, stop_tenant-stops}
use octw.Tenants.Deletes.{Gone, delete_tenant-Gone}
use octw.Tenants.Service.{wake_tenant}
use octw.Tenants.Wakes.{Runs, wake_tenant-Runs}
use octw.Hibernation.Scheduler.{check_idle_tenants, run, at_time}
use octw.Hibernation.Policy.{settle}
use octw.Hibernation.Idle.{Rested, run-Rested}
use octw.Hibernation.Repeats.{run-statuses}
use octw.Hibernation.Loop.{Running, init, enter, after, comes_round, stops}
use octw.Hibernation.Stops.{after-stops}
use octw.Hibernation.Settles.{Outcome, check_idle_tenants-Outcome}
use octw.Hibernation.Coherence.{Honest, check_idle_tenants-Honest}
use octw.Hibernation.Returns.{check_idle_tenants-returns}
use octw.Tests.Machine.{Machine, boxes, boxes-DockerLaws, boxes-IsCalm, marks}
use octw.Tests.Sample.{session, sample, world, kek, acme}

-- The machine with the first tenant's container.
abbrev box : Container
box = record { name = container_name 1; id = codes "box"; status = running; networks = [] }

abbrev busy : World Machine
busy = record world { machine = box ∷ [] }

abbrev after_start : World Machine
after_start = (start_tenant boxes marks kek default_settings 1 busy).1

start_tenant-runs_example :
    Serves (codes "box") (boxes.containers_get (container_name 1) after_start.machine)
    × Says TenantStatus.running (some (codes "box")) (tenant_by_id 1 after_start.session.db)
unfolding start_tenant octw.Tenants.Service.get_tenant tenant_by_id find
    octw.Vault.Service.get_decrypted_secrets octw.Vault.Service.ensure_tenant_dek
    octw.Vault.Service.decrypt_rows octw.Db.secrets_of keep octw.Tenants.Service.provider_env_var
    row_to_tenant octw.Models.Provider.get_provider text_beq start_container
    octw.Orchestrator.Dirs.create_tenant_dirs container_name octw.Uuid.uuid_text
    octw.Orchestrator.Containers.id_or_run octw.Orchestrator.Containers.reuse
    octw.Orchestrator.Dirs.make_dir octw.Tenants.Rows.update_row octw.Tenants.Rows.emit_audit
start_tenant-runs_example =
    start_tenant-runs boxes boxes-DockerLaws marks kek default_settings 1 busy (codes "box") refl

abbrev after_stop : World Machine
after_stop = (stop_tenant boxes marks kek default_settings 1 busy).1

stop_tenant-stops_example :
    (boxes.containers_get (container_name 1) after_stop.machine ≡ err not_found)
    × Says TenantStatus.stopped none (tenant_by_id 1 after_stop.session.db)
unfolding stop_tenant stop_container find text_beq container_name octw.Uuid.uuid_text
    octw.Tenants.Rows.update_row octw.Tenants.Rows.emit_audit
stop_tenant-stops_example =
    stop_tenant-stops boxes boxes-DockerLaws marks kek default_settings 1 busy refl

abbrev after_delete : World Machine
after_delete = (delete_tenant boxes marks kek default_settings 1 (some 10) busy).1

delete_tenant-Gone_example :
    (boxes.containers_get (container_name 1) after_delete.machine ≡ err not_found)
    × Gone 1 after_delete.session.db
unfolding tenant_by_id find delete_tenant octw.Tenants.Service.delete_found
    octw.Tenants.Rows.update_row octw.Orchestrator.Containers.cleanup_tenant stop_container text_beq
    container_name octw.Uuid.uuid_text octw.Orchestrator.Networks.remove_network
    octw.Orchestrator.Dirs.remove_tenant_dirs octw.Tenants.Rows.emit_audit
delete_tenant-Gone_example =
    delete_tenant-Gone boxes boxes-DockerLaws marks kek default_settings 1 (some 10) busy {r = acme}
      refl refl

abbrev one : Uuid
one = 1

abbrev two : Uuid
two = 2

names-Distinct_example :
    (container_name one ≡ container_name two → one ≡ two)
    × (network_name one ≡ network_name two → one ≡ two)
    × (init_name one ≡ init_name two → one ≡ two)
    × (tenant_dir default_settings one ≡ tenant_dir default_settings two → one ≡ two)
names-Distinct_example = names-Distinct default_settings one two (omega arith) (omega arith)

check_idle_tenants-Outcome_example :
    let (r, w) = check_idle_tenants boxes default_settings busy in
    Outcome boxes default_settings busy w r
check_idle_tenants-Outcome_example = check_idle_tenants-Outcome boxes default_settings busy

check_idle_tenants-returns_example : (check_idle_tenants boxes default_settings busy).0 ≡ ok tt
check_idle_tenants-returns_example =
    check_idle_tenants-returns boxes boxes-IsCalm default_settings busy

run-Rested_example :
    All
      (Rested default_settings 90000)
      (run boxes default_settings (5000 ∷ 90000 ∷ []) busy).committed.tenants
run-Rested_example = run-Rested boxes default_settings (5000 ∷ []) 90000 busy (
    check_idle_tenants-returns boxes boxes-IsCalm default_settings
      (at_time boxes 90000 (run boxes default_settings (5000 ∷ []) busy)))

run-statuses_example :
    map
      (λ r. r.status)
      (run boxes default_settings (5000 ∷ 6000 ∷ 90000 ∷ []) busy).committed.tenants
    ≡ map (λ r. (settle default_settings 90000 r).status) busy.committed.tenants
run-statuses_example =
    run-statuses boxes default_settings (5000 ∷ 6000 ∷ []) 90000 busy
      (omega arith, (omega arith, tt))
      (check_idle_tenants-returns boxes boxes-IsCalm default_settings
        (at_time boxes 90000 (run boxes default_settings (5000 ∷ 6000 ∷ []) busy)))

-- `stop` is called while the scheduler waits for the second time; the third it comes round no more.
abbrev stopped_early : Running Machine
stopped_early =
    after boxes default_settings
      (map comes_round (5000 ∷ []) ++ stops ∷ comes_round 90000 ∷ comes_round 90060 ∷ [])
      (enter init busy)

after-stops_example :
    (stopped_early.world ≡ run boxes default_settings (5000 ∷ []) busy)
    × (stopped_early.has_returned ≡ true)
after-stops_example =
    after-stops boxes default_settings (5000 ∷ []) (comes_round 90000 ∷ comes_round 90060 ∷ []) init
      busy

-- The tenant's container is paused.
abbrev asleep : World Machine
asleep = record world { machine = record box { status = paused } ∷ [] }

wake_tenant-Runs_example : Runs (
    boxes.containers_get
      (container_name 1)
      (wake_tenant boxes marks kek default_settings 1 asleep).1.machine)
unfolding wake_tenant octw.Orchestrator.Containers.get_container_state find text_beq container_name
    octw.Uuid.uuid_text octw.Tenants.Service.wake_from
    octw.Orchestrator.Containers.unpause_container octw.Tenants.Rows.update_row
    octw.Tenants.Rows.emit_audit octw.Tenants.Service.get_tenant tenant_by_id update_where
    row_to_tenant
wake_tenant-Runs_example =
    wake_tenant-Runs boxes boxes-DockerLaws marks kek default_settings 1 asleep (codes "box") refl

-- A day later, the pass stops the first tenant.
abbrev next_day : World Machine
next_day = record busy { session = record session { now = 90000 } }

next_day-Honest : All (Honest boxes next_day.machine) sample.tenants
unfolding find text_beq container_name octw.Uuid.uuid_text
next_day-Honest = (λ e. cc, ((λ e. refl), tt))

check_idle_tenants-Honest_example :
    let w = (check_idle_tenants boxes default_settings next_day).1 in
    All (Honest boxes w.machine) w.committed.tenants
unfolding check_idle_tenants octw.Hibernation.Scheduler.check_rows octw.Hibernation.Scheduler.sweep
    octw.Hibernation.Scheduler.check_running stop_container find text_beq container_name
    octw.Uuid.uuid_text
check_idle_tenants-Honest_example =
    check_idle_tenants-Honest boxes boxes-DockerLaws default_settings next_day next_day-Honest refl
