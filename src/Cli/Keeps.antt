-- ===== src/Cli/Keeps.antt =====
-- The commands of src/octw/cli/main.py keep every invariant of the committed database, and one that
-- fails has committed nothing.
use octw.Prelude.{Text, Option, List, [], ◌∷◌, ◌≡◌, refl, inl, inr, arith}
use octw.Exec.{Exc, Op, ok, err, Result-cases, continue}
use octw.Config.{Settings}
use octw.Models.Tenant.{Tenant}
use octw.Platform.{Platform}
use octw.Db.{Db, Invariant, everywhere}
use octw.Vault.Envelope.{Crypto}
use octw.Vault.Kek.{load_kek}
use octw.Vault.Keeps.{VaultInvariant}
use octw.World.{World}
use octw.Tenants.Keeps.{
  create_tenant-keeps, start_tenant-keeps, stop_tenant-keeps, pause_tenant-keeps,
  delete_tenant-keeps,
}
use octw.Api.Atomic.{
  create_tenant-Uncommitted, start_tenant-Uncommitted, stop_tenant-Uncommitted,
  pause_tenant-Uncommitted, delete_tenant-Uncommitted, get_runtime_info-Uncommitted,
}
use octw.Cli.Commands
use octw.Cli.Commands.{tenant_lines, with_vault}
use octw.Cli.Runs.{
  Command, tenant_create, tenant_list, tenant_start, tenant_stop, tenant_pause, tenant_status,
  tenant_delete, secret_set, secret_list, command, run_command,
}

module _ {D : Type 0} (p : Platform D) (c : Crypto) (settings : Settings)
    (kek_env : Option Text) where
  tenant_lines-same :
      (ts : List Tenant) (w : World D) → (tenant_lines p c settings kek_env ts w).1 ≡ w
  unfolding tenant_lines
  tenant_lines-same [] w = refl
  tenant_lines-same (t ∷ ts) w = grind (arith, tenant_lines-same ts w)

  command-atomic :
      (x : Command) (w : World D) (e : Exc)
      → (command p c settings kek_env x w).0 ≡ err e
      → (command p c settings kek_env x w).1.committed ≡ w.committed
  unfolding command Commands.tenant_create Commands.tenant_list Commands.tenant_start
      Commands.tenant_stop Commands.tenant_pause Commands.tenant_status Commands.tenant_delete
      Commands.secret_set Commands.secret_list
  command-atomic (tenant_create a b plan d f) w e h = grind (arith, create_tenant-Uncommitted p c)
  command-atomic tenant_list w e h = grind (arith, tenant_lines-same)
  command-atomic (tenant_start t) w e h = grind (arith, start_tenant-Uncommitted p c)
  command-atomic (tenant_stop t) w e h = grind (arith, stop_tenant-Uncommitted p c)
  command-atomic (tenant_pause t) w e h = grind (arith, pause_tenant-Uncommitted p c)
  command-atomic (tenant_status t) w e h = grind (arith, get_runtime_info-Uncommitted p c)
  command-atomic (tenant_delete t b) w e h = grind (arith, delete_tenant-Uncommitted p c)
  command-atomic (secret_set t n v o) w e h = grind arith
  command-atomic (secret_list t) w e h = grind arith

  module _ {P : Db → Type 0} (inv : Invariant everywhere P) where
    -- What is kept with each key that is loaded is kept behind `EnvelopeVault()`.
    with_vault-keeps :
        {A : Type 0} (m : Text → Op (World D) A) (w : World D)
        → ((kek : Text) → load_kek p settings kek_env w.machine ≡ ok kek → P (m kek w).1.committed)
        → P w.committed
        → P (with_vault p c settings kek_env m w).1.committed
    with_vault-keeps m w h k = elim (Result-cases (load_kek p settings kek_env w.machine)) [
      | inl (kek, q) ↦ rw (q, continue) (h kek q)
      | inr (e, q) ↦ rw (q, continue) k
    ]

    -- The keys that the command may load keep it.
    abbrev Vaults : World D → Type 0
    Vaults w =
        (kek : Text)
        → load_kek p settings kek_env w.machine ≡ ok kek
        → VaultInvariant everywhere c kek P

    tenant_start-keeps :
        (t : Text) (w : World D)
        → P w.session.db
        → P w.committed
        → Vaults w
        → P (Commands.tenant_start p c settings kek_env t w).1.committed
    unfolding Commands.tenant_start
    tenant_start-keeps t w v k vaults =
        with_vault-keeps _ w
          (λ kek q. grind (
            arith,
            start_tenant-Uncommitted p c,
            start_tenant-keeps inv p c kek settings (vaults kek q),
          ))
          k

    secret_set-keeps :
        (t n x : Text) (o : Option Text) (w : World D)
        → P w.session.db
        → P w.committed
        → Vaults w
        → P (Commands.secret_set p c settings kek_env t n x o w).1.committed
    unfolding Commands.secret_set
    secret_set-keeps t n x o w v k vaults =
        with_vault-keeps _ w (λ kek q. let vault = vaults kek q in grind (arith, vault.stores)) k

    command-keeps :
        (x : Command) (w : World D)
        → P w.session.db
        → P w.committed
        → Vaults w
        → P (command p c settings kek_env x w).1.committed
    unfolding command Commands.tenant_create Commands.tenant_list Commands.tenant_stop
        Commands.tenant_pause Commands.tenant_status Commands.tenant_delete Commands.secret_list
    command-keeps (tenant_create a b plan d f) w v k vaults =
        grind (arith, create_tenant-Uncommitted p c, create_tenant-keeps inv p c)
    command-keeps tenant_list w v k vaults = grind (arith, tenant_lines-same)
    command-keeps (tenant_start t) w v k vaults = ground (arith, tenant_start-keeps t w v k vaults)
    command-keeps (tenant_stop t) w v k vaults =
        grind (arith, stop_tenant-Uncommitted p c, stop_tenant-keeps inv p c)
    command-keeps (tenant_pause t) w v k vaults =
        grind (arith, pause_tenant-Uncommitted p c, pause_tenant-keeps inv p c)
    command-keeps (tenant_status t) w v k vaults = grind (arith, get_runtime_info-Uncommitted p c)
    command-keeps (tenant_delete t b) w v k vaults =
        grind (arith, delete_tenant-Uncommitted p c, delete_tenant-keeps inv p c)
    command-keeps (secret_set t n x o) w v k vaults =
        ground (arith, secret_set-keeps t n x o w v k vaults)
    command-keeps (secret_list t) w v k vaults = grind arith

    pub run_command-keeps :
        (x : Command) (w : World D)
        → P w.committed
        → ((kek : Text)
            → load_kek p settings kek_env w.machine ≡ ok kek
            → VaultInvariant everywhere c kek P)
        → P (run_command p c settings kek_env x w).1.committed
    unfolding run_command
    run_command-keeps x w k vaults = command-keeps x _ k k vaults

  -- A command that fails has committed nothing.
  run_command-atomic :
      (x : Command) (w : World D) (e : Exc)
      → (run_command p c settings kek_env x w).0 ≡ err e
      → (run_command p c settings kek_env x w).1.committed ≡ w.committed
  unfolding run_command
  run_command-atomic x w e h = command-atomic x _ e h
