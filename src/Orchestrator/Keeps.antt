-- ===== src/Orchestrator/Keeps.antt =====
-- An invariant of the machine as an interface: what each call of the Docker SDK and of the operating
-- system keeps that src/octw/orchestrator/docker_orch.py makes for a tenant. Where a predicate is kept
-- by what is done to some containers only, `names` says which.
use octw.Prelude.{ℕ, Text, Bool, true, false, Option, none, some, Dict, ◌≡◌, inl, inr, arith}
use octw.Exec.{Op, ok, Result-cases}
use octw.Config.{Settings}
use octw.Models.Tenant.{Uuid, Tenant}
use octw.Platform.{
  Platform, Container, ContainerStatus, created, running, paused, restarting, removing, exited,
  dead, RunSpec, Network, NetworkSpec,
}
use octw.Orchestrator.Names.{container_name}
use octw.Orchestrator.Dirs.{make_dir, create_tenant_dirs, remove_tenant_dirs}
use octw.Orchestrator.Networks.{create_network, remove_network}
use octw.Orchestrator.Spec.{run_spec}
use octw.Orchestrator.Containers.{
  reuse, run_new, id_or_run, start_container, stop_container, pause_container, unpause_container,
  cleanup_tenant,
}

pub record MachineInvariant {D : Type 0} (p : Platform D) (names : Text → Bool) (Q : D → Type 0)
    : Type 0 where
  pub finds : {n : Text} {d : D} {c : Container} → p.containers_get n d ≡ ok c → c.name ≡ n
  pub runs : (spec : RunSpec) (d : D) → names spec.name ≡ true → Q d → Q (p.containers_run spec d).1
  pub pauses : (c : Container) (d : D) → names c.name ≡ true → Q d → Q (p.container_pause c d).1
  pub unpauses : (c : Container) (d : D) → names c.name ≡ true → Q d → Q (p.container_unpause c d).1
  pub stops :
      (c : Container) (k : ℕ) (d : D) → names c.name ≡ true → Q d → Q (p.container_stop c k d).1
  pub removes :
      (c : Container) (f : Bool) (d : D)
      → names c.name ≡ true
      → Q d
      → Q (p.container_remove c f d).1
  pub creates_network : (spec : NetworkSpec) (d : D) → Q d → Q (p.networks_create spec d).1
  pub removes_network : (n : Network) (d : D) → Q d → Q (p.network_remove n d).1
  pub makes_dirs : (t : Text) (d : D) → Q d → Q (p.makedirs t d).1
  pub changes_mode : (t : Text) (mode : ℕ) (d : D) → Q d → Q (p.chmod t mode d).1
  pub changes_owner : (t : Text) (u g : ℕ) (d : D) → Q d → Q (p.chown t u g d).1
  pub removes_tree : (t : Text) (d : D) → Q d → Q (p.rmtree t d).1
  pub removes_by_sudo : (t : Text) (d : D) → Q d → Q (p.sudo_rm t d).1

module _ {D : Type 0} (p : Platform D) {names : Text → Bool} {Q : D → Type 0}
    (inv : MachineInvariant p names Q) where
  abbrev pub Kept : {A : Type 0} → Op D A → Type 0
  Kept m = (d : D) → Q d → Q (m d).1

  make_dir-keeps : (t : Text) → Kept (make_dir p t)
  unfolding make_dir
  make_dir-keeps t d q = grind (arith, inv.makes_dirs, inv.changes_mode, inv.changes_owner)

  pub create_tenant_dirs-keeps :
      (settings : Settings) (t : Uuid) → Kept (create_tenant_dirs p settings t)
  unfolding create_tenant_dirs
  create_tenant_dirs-keeps settings t d q = grind (arith, make_dir-keeps)

  remove_tenant_dirs-keeps :
      (settings : Settings) (t : Uuid) → Kept (remove_tenant_dirs p settings t)
  unfolding remove_tenant_dirs
  remove_tenant_dirs-keeps settings t d q = grind (arith, inv.removes_tree, inv.removes_by_sudo)

  pub create_network-keeps : (t : Uuid) → Kept (create_network p t)
  unfolding create_network
  create_network-keeps t d q = grind (arith, inv.creates_network)

  remove_network-keeps : (t : Uuid) → Kept (remove_network p t)
  unfolding remove_network
  remove_network-keeps t d q = grind (arith, inv.removes_network)

  reuse-keeps : (s : ContainerStatus) (c : Container) → names c.name ≡ true → Kept (reuse p s c)
  unfolding reuse
  reuse-keeps paused c i d q = ground (arith, inv.unpauses c d i q)
  reuse-keeps running c i d q = ground arith
  reuse-keeps exited c i d q = ground (arith, inv.removes c false d i q)
  reuse-keeps created c i d q = ground (arith, inv.removes c true d i q)
  reuse-keeps restarting c i d q = ground (arith, inv.removes c true d i q)
  reuse-keeps removing c i d q = ground (arith, inv.removes c true d i q)
  reuse-keeps dead c i d q = ground (arith, inv.removes c true d i q)

  module _ (t : Uuid) (i : names (container_name t) ≡ true) where
    named :
        (d : D) (c : Container) → p.containers_get (container_name t) d ≡ ok c → names c.name ≡ true
    named d c q = rw (inv.finds {n = container_name t} {d = d} {c = c} q) i

    pub stop_container-keeps : Kept (stop_container p t)
    unfolding stop_container
    stop_container-keeps d q = grind (arith, named, inv.stops, inv.removes)

    pub pause_container-keeps : Kept (pause_container p t)
    unfolding pause_container
    pause_container-keeps d q = elim (Result-cases (p.containers_get (container_name t) d)) [
      | inl (c, found) ↦ ground (arith, inv.pauses c d (named d c found) q)
      | inr (e, found) ↦ ground arith
    ]

    pub unpause_container-keeps : Kept (unpause_container p t)
    unfolding unpause_container
    unpause_container-keeps d q = elim (Result-cases (p.containers_get (container_name t) d)) [
      | inl (c, found) ↦ ground (arith, inv.unpauses c d (named d c found) q)
      | inr (e, found) ↦ ground arith
    ]

    pub cleanup_tenant-keeps : (settings : Settings) → Kept (cleanup_tenant p settings t)
    unfolding cleanup_tenant
    cleanup_tenant-keeps settings d q =
        grind (arith, stop_container-keeps, remove_network-keeps, remove_tenant_dirs-keeps)

  module _ (settings : Settings) (tenant : Tenant) (env_var : Option Text) (env : Dict Text)
      (i : names (container_name tenant.tenant_id) ≡ true) where
    id_or_run-keeps : (o : Option Text) → Kept (id_or_run p settings tenant env_var env o)
    unfolding id_or_run run_new run_spec
    id_or_run-keeps none d q = grind (arith, create_network-keeps, inv.runs)
    id_or_run-keeps (some id) d q = q

    pub start_container-keeps : Kept (start_container p settings tenant env_var env)
    unfolding start_container
    start_container-keeps d q =
        grind
          (arith, create_tenant_dirs-keeps, named tenant.tenant_id i, reuse-keeps, id_or_run-keeps)
