-- ===== src/Api/Shared.antt =====
-- src/octw/api/deps.py: which objects the requests share, whatever was called before.
use octw.Prelude.{ℕ, Text, Option, none, some, ◌≡◌, inl, inr, length, subst, arith}
use octw.Exec.{Result, Result-cases, ok, err, ⊤}
use octw.Config.{Settings}
use octw.Platform.{Platform}
use octw.Vault.Envelope.{key_size}
use octw.Vault.Kek.{load_kek, load_kek-length}
use octw.Api.Deps.{
  EnvelopeVault, VaultService, TenantService, Process, started, get_orchestrator, get_vault,
  get_vault_service, get_tenant_service,
}

module _ {D : Type 0} (from_env : D → Result ⊤) (p : Platform D) (settings : Settings)
    (kek_env : Option Text) where
  abbrev Sized : Result Text → Type 0
  Sized (ok kek) = length kek ≡ key_size
  Sized (err e) = Unit

  load_kek-Sized : (d : D) → Sized (load_kek p settings kek_env d)
  load_kek-Sized d = elim (Result-cases (load_kek p settings kek_env d)) [
    | inl (kek, q) ↦ rw q (load_kek-length p settings kek_env d kek q)
    | inr (e, q) ↦ rw q tt
  ]

  -- What a thread of the process, or the machine around it, does next.
  pub data Step : Process D → Process D → Type 0 where
    orchestrator : (s : Process D) → Step s (get_orchestrator from_env s).1
    vault : (s : Process D) → Step s (get_vault from_env p settings kek_env s).1
    vault_service : (s : Process D) → Step s (get_vault_service from_env p settings kek_env s).1
    tenant_service : (s : Process D) → Step s (get_tenant_service from_env p settings kek_env s).1
    machine : (s : Process D) (d : D) → Step s (record s { machine = d })

  pub data Reach (s : Process D) : Process D → Type 0 where
    here : Reach s s
    next : {t u : Process D} → Reach s t → Step t u → Reach s u

  abbrev Keyed : Option EnvelopeVault → Type 0
  Keyed none = Unit
  Keyed (some v) = length v.kek ≡ key_size

  abbrev Vaulted : Option VaultService → Option EnvelopeVault → Type 0
  Vaulted none o = Unit
  Vaulted (some v) o = o ≡ some v.vault

  abbrev Served : Option TenantService → Option ℕ → Option VaultService → Type 0
  Served none o v = Unit
  Served (some t) o v = (o ≡ some t.orch) × (v ≡ some t.vaults)

  -- The objects that are set hold each other.
  record IsShared (s : Process D) : Type 0 where
    keyed : Keyed s.vault
    vaulted : Vaulted s.vault_service s.vault
    served : Served s.tenant_service s.orch s.vault_service

  get_orchestrator-IsShared :
      (s : Process D) → IsShared s → IsShared (get_orchestrator from_env s).1
  unfolding get_orchestrator
  get_orchestrator-IsShared s h = ground arith

  get_vault-IsShared :
      (s : Process D) → IsShared s → IsShared (get_vault from_env p settings kek_env s).1
  unfolding get_vault
  get_vault-IsShared s h = ground (arith, load_kek-Sized s.machine)

  get_vault_service-IsShared :
      (s : Process D) → IsShared s → IsShared (get_vault_service from_env p settings kek_env s).1
  unfolding get_vault_service
  get_vault_service-IsShared s h = ground (arith, load_kek-Sized s.machine)

  get_tenant_service-IsShared :
      (s : Process D) → IsShared s → IsShared (get_tenant_service from_env p settings kek_env s).1
  unfolding get_tenant_service
  get_tenant_service-IsShared s h = ground (arith, load_kek-Sized s.machine)

  Step-IsShared : {s t : Process D} → Step s t → IsShared s → IsShared t
  Step-IsShared (orchestrator s) h = get_orchestrator-IsShared s h
  Step-IsShared (vault s) h = get_vault-IsShared s h
  Step-IsShared (vault_service s) h = get_vault_service-IsShared s h
  Step-IsShared (tenant_service s) h = get_tenant_service-IsShared s h
  Step-IsShared (machine s d) h = record { keyed = h.keyed; vaulted = h.vaulted; served = h.served }

  Reach-IsShared : {s t : Process D} → Reach s t → IsShared s → IsShared t
  Reach-IsShared here h = h
  Reach-IsShared (next r st) h = Step-IsShared st (Reach-IsShared r h)

  -- Every variable is set, to this service and to what it holds.
  abbrev Holds : TenantService → Process D → Type 0
  Holds t s =
      (s.tenant_service ≡ some t)
      × (s.vault_service ≡ some t.vaults)
      × (s.vault ≡ some t.vaults.vault)
      × (s.orch ≡ some t.orch)

  IsShared-Holds :
      (t : TenantService) (s : Process D) → IsShared s → s.tenant_service ≡ some t → Holds t s
  IsShared-Holds t s h q = ground arith

  get_tenant_service-sets :
      (t : TenantService) (s : Process D)
      → (get_tenant_service from_env p settings kek_env s).0 ≡ ok t
      → (get_tenant_service from_env p settings kek_env s).1.tenant_service ≡ some t
  unfolding get_tenant_service
  get_tenant_service-sets t s h = ground arith

  -- What the four functions answer, where the objects are these.
  abbrev Answers : TenantService → Process D → Type 0
  Answers t s =
      (get_tenant_service from_env p settings kek_env s ≡ (ok t, s))
      × (get_vault_service from_env p settings kek_env s ≡ (ok t.vaults, s))
      × (get_vault from_env p settings kek_env s ≡ (ok t.vaults.vault, s))
      × (get_orchestrator from_env s ≡ (ok t.orch, s))

  Holds-Answers : (t : TenantService) (s : Process D) → Holds t s → Answers t s
  unfolding get_tenant_service get_vault_service get_vault get_orchestrator
  Holds-Answers t s h = (rw h.0, rw h.1, rw h.2, rw h.3)

  Step-Holds : (t : TenantService) {s s' : Process D} → Step s s' → Holds t s → Holds t s'
  Step-Holds t (orchestrator s) h = rw (Holds-Answers t s h).3 h
  Step-Holds t (vault s) h = rw (Holds-Answers t s h).2 h
  Step-Holds t (vault_service s) h = rw (Holds-Answers t s h).1 h
  Step-Holds t (tenant_service s) h = rw (Holds-Answers t s h).0 h
  Step-Holds t (machine s d) h = h

  Reach-Holds : (t : TenantService) {s s' : Process D} → Reach s s' → Holds t s → Holds t s'
  Reach-Holds t here h = h
  Reach-Holds t (next r st) h = Step-Holds t st (Reach-Holds t r h)

  -- Once `get_tenant_service` has returned in a process, each later call of the four functions of
  -- deps.py returns this service, its vault service, the vault of that and its orchestrator, and
  -- makes nothing, whatever was called before or between and whatever becomes of the machine and
  -- of the key's file; the key has the size of an AES-256 key.
  pub get_tenant_service-shared :
      (d : D) (s s' : Process D) (t : TenantService)
      → Reach (started d) s
      → (get_tenant_service from_env p settings kek_env s).0 ≡ ok t
      → Reach (get_tenant_service from_env p settings kek_env s).1 s'
      → (get_tenant_service from_env p settings kek_env s' ≡ (ok t, s'))
        × (get_vault_service from_env p settings kek_env s' ≡ (ok t.vaults, s'))
        × (get_vault from_env p settings kek_env s' ≡ (ok t.vaults.vault, s'))
        × (get_orchestrator from_env s' ≡ (ok t.orch, s'))
        × (length t.vaults.vault.kek ≡ key_size)
  get_tenant_service-shared d s s' t r h r' =
      let shared =
        Step-IsShared (tenant_service s)
          (Reach-IsShared r (record { keyed = tt; vaulted = tt; served = tt })) in
      let set =
        IsShared-Holds t (get_tenant_service from_env p settings kek_env s).1 shared
          (get_tenant_service-sets t s h) in
      let a = Holds-Answers t s' (Reach-Holds t r' set) in
      (a.0, a.1, a.2, a.3, subst Keyed set.2 shared.keyed)
