-- ===== src/Edge/Fetches.antt =====
-- src/octw/edge/proxy.py with src/octw/api/routers/internal_router.py: what the answers of the internal
-- routes say of the machine.
use octw.Prelude.{Text, some, ◌≡◌, refl, ◌∙◌, arith, map, Bool-cases, inl, inr}
use octw.Exec.{Result, ok, err, http, Op, continue, Result-cases}
use octw.Config.{Settings}
use octw.Models.Tenant.{Uuid}
use octw.Platform.{Platform}
use octw.Orchestrator.Names.{container_name}
use octw.Orchestrator.Containers.{get_container_state, get_container_ip}
use octw.Orchestrator.Laws.{DockerLaws}
use octw.Vault.Envelope.{Crypto}
use octw.World.{World}
use octw.Tenants.Service.{wake_tenant}
use octw.Tenants.Wakes.{Runs, wake_tenant-Runs}
use octw.Tenants.Slugs.{key_of, keys, wake_tenant-keys}
use octw.Api.Resolves.{resolve_tenant_id-keys}
use octw.Api.InternalRouter.{Status, resolve_tenant_id, ensure_running, get_status}
use octw.Api.Requests.{in_request}
use octw.Edge.Proxy.{Client, fetch, answered, respond}

pub respond-answered : {A : Type 0} (r : Result A) (a : A) → respond r ≡ answered a → r ≡ ok a
respond-answered (ok b) a h = ground arith
respond-answered (err (http n)) a h = absurd (ground arith)
respond-answered (err _) a h = absurd (ground arith)

pub fetch-answered :
    {D A : Type 0} (client : Client D) (url : Text) (m : Op (World D) A) (w : World D) (a : A)
    → (fetch client url m w).0 ≡ ok (answered a)
    → ((in_request m w).0 ≡ ok a) × ((fetch client url m w).1 ≡ (in_request m w).1)
fetch-answered client url m w a h = elim (Bool-cases (client.url_ok url)) [
  | inl e ↦ (respond-answered (in_request m w).0 a (ground arith), rw (e, continue) refl)
  | inr e ↦ absurd (ground arith)
]

module _ {D : Type 0} (p : Platform D) where
  -- The tenant that a slug names, in what is committed.
  abbrev pub Names : Text → World D → Uuid → Type 0
  Names slug w t = resolve_tenant_id slug (record w.session { db = w.committed }) ≡ ok t

  -- What `get_status` has read of the machine.
  abbrev pub Read : Uuid → Status → D → Type 0
  Read t s d = (get_container_state p t d ≡ ok s.state) × (get_container_ip p t d ≡ ok s.ip)

  get_status-same : (slug : Text) (w : World D) → (get_status p slug w).1 ≡ w
  unfolding get_status
  get_status-same slug w = ground arith

  get_status-Read :
      (slug : Text) (w : World D) (s : Status)
      → (get_status p slug w).0 ≡ ok s
      → (t : Uuid) × ((resolve_tenant_id slug w.session ≡ ok t) × Read t s w.machine)
  unfolding get_status
  get_status-Read slug w s h = elim (Result-cases (resolve_tenant_id slug w.session)) [
    | inl (t, q) ↦ (t, (q, (ground arith, ground arith)))
    | inr (x, q) ↦ absurd (ground arith)
  ]

  -- What is committed keeps the slugs of the tenants.
  abbrev pub SameSlugs : World D → World D → Type 0
  SameSlugs w w' = map key_of w'.committed.tenants ≡ map key_of w.committed.tenants

  pub Names-moves :
      (slug : Text) (w w' : World D) (t : Uuid) → SameSlugs w w' → Names slug w t → Names slug w' t
  Names-moves slug w w' t h n =
      resolve_tenant_id-keys slug (record w.session { db = w.committed })
        (record w'.session { db = w'.committed }) h
      ∙ n

  -- The status that is fetched is of the machine and of the tenant that the slug names, and fetching
  -- it changes neither.
  pub fetch-status :
      (client : Client D) (url slug : Text) (w : World D) (s : Status)
      → let (r, w') = fetch client url (get_status p slug) w in
        r ≡ ok (answered s)
        → SameSlugs w w'
          × ((w'.machine ≡ w.machine) × ((t : Uuid) × (Names slug w t × Read t s w.machine)))
  fetch-status client url slug w s h =
      let w0 : World D = record w { session = record w.session { db = w.committed } } in
      let same = get_status-same slug w0 in
      let (r, e) = fetch-answered client url (get_status p slug) w s h in
      let read = get_status-Read slug w0 s r in (rw (e, same) refl, (rw (e, same) refl, read))

  -- An address of the container of the tenant, which runs.
  abbrev pub Serving : Uuid → Text → D → Type 0
  Serving t ip d =
      Runs (p.containers_get (container_name t) d) × (get_container_ip p t d ≡ ok (some ip))

  -- A slug names a tenant whose container runs at the address.
  abbrev pub Reached : Text → Text → World D → Type 0
  Reached slug ip w = (t : Uuid) × (Names slug w t × Serving t ip w.machine)

module _ {D : Type 0} (p : Platform D) (laws : DockerLaws p) (c : Crypto) (kek : Text)
    (settings : Settings) where
  pub ensure_running-Runs :
      (slug id : Text) (w : World D)
      → let (r, w') = ensure_running p c kek settings slug w in
        r ≡ ok id
        → (t : Uuid) × ((resolve_tenant_id slug w.session ≡ ok t)
            × (Runs (p.containers_get (container_name t) w'.machine)
                × (map key_of w'.committed.tenants ≡ keys w.session)))
  unfolding ensure_running
  ensure_running-Runs slug id w h = elim (Result-cases (resolve_tenant_id slug w.session)) [
    | inl (t, q) ↦ elim (Result-cases (wake_tenant p c kek settings t w).0) [
      | inl (i, r) ↦ (
        t,
        (
          q,
          (
            rw (q, continue, r) (wake_tenant-Runs p laws c kek settings t w i r),
            rw (q, continue, r) (wake_tenant-keys p c kek settings t w),
          ),
        ),
      )
      | inr (x, r) ↦ absurd (ground arith)
    ]
    | inr (x, q) ↦ absurd (ground arith)
  ]
