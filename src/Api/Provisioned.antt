-- ===== src/Api/Provisioned.antt =====
-- src/octw/api/routers/provision_router.py: what a request that provisions a tenant leaves running.
use octw.Prelude.{Text, Option, none, some, [], ◌∷◌, ◌≡◌, refl, arith, Dict, text_eq, inl, inr}
use octw.Exec.{⊤, Op, ◌>>◌, Exc, Result, ok, err, continue, Result-cases, ensured_by_last}
use octw.Config.{Settings}
use octw.Models.Tenant.{Uuid, Tenant, TenantStatus}
use octw.Models.Provider.{ProviderSpec, provider_key_value}
use octw.Platform.{Platform}
use octw.Uuid.{uuid_text}
use octw.Orchestrator.Names.{container_name}
use octw.Orchestrator.Laws.{DockerLaws}
use octw.Orchestrator.Serving.{Serves}
use octw.Db.{Db, TenantRow, tenant_by_id}
use octw.Tenants.Rows.{update_row}
use octw.Orchestrator.Configure.{configure_tenant}
use octw.Vault.Envelope.{Crypto}
use octw.World.{World, in_machine, in_session}
use octw.Tenants.Runs.{Says, start_tenant-runs}
use octw.Tenants.Service.{create_tenant, start_tenant}
use octw.Api.Guard.{TokenPayload}
use octw.Api.Requests.{in_request}
use octw.Tenants.Columns.{some-inj, HasRow, HasRow-keys, update_row-HasRow, create_tenant-HasRow}
use octw.Tenants.Slugs.{
  key_of, keys, ensure_tenant_dek-keys, get_decrypted_secrets-keys, start_tenant-keys,
}
use octw.Vault.Service.{store_secret, seal_and_put, put_secret}
use octw.Db.{Session, add_secret, update_secret}
use octw.Models.Secret.{SecretType, env}
use octw.Api.Provision.{provision_tenant-atomic}
use octw.Api.ProvisionRouter.{response_of}
use octw.Api.ProvisionRouter.{
  creation_of, set_provider, given_secrets, ProvisionRequest, ProvisionResponse, check_request,
  store_secrets, onboard, onboard_or_500, launch, provision_tenant,
}

module _ (c : Crypto) (kek : Text) where
  store_secret-keys :
      (t : Uuid) (n v : Text) (ty : SecretType) (o : Option Text) (s : Session)
      → keys (store_secret c kek t n v ty o s).1 ≡ keys s
  unfolding store_secret seal_and_put put_secret add_secret update_secret
  store_secret-keys t n v ty o s = grind (arith, ensure_tenant_dek-keys c kek)

-- The row of a tenant with this slug and provider, which says that it runs in this container.
abbrev AsRunning : Uuid → Text → Text → Text → Db → Type 0
AsRunning t slug provider id db =
    (r : TenantRow) × ((tenant_by_id t db ≡ some r)
      × ((key_of r ≡ (slug, t, some provider))
          × ((r.status ≡ TenantStatus.running) × (r.container_id ≡ some id))))

said :
    (t : Uuid) (slug provider id : Text) (s : Session) (o : Option TenantRow)
    → tenant_by_id t s.db ≡ o
    → HasRow t slug (some provider) s
    → Says TenantStatus.running (some id) o
    → AsRunning t slug provider id s.db
said t slug provider id s none e h q = absurd (ground (arith, e))
said t slug provider id s (some r) e h q = (r, (e, (some-inj (key_of r) _ (rw e at h), q)))

module _ {D : Type 0} (p : Platform D) (laws : DockerLaws p) (c : Crypto) (kek : Text)
    (settings : Settings) where
  store_secrets-keys :
      (t : Uuid) (secrets : Dict Text) (w : World D)
      → keys (store_secrets p c kek settings t secrets w).1.session ≡ keys w.session
  unfolding store_secrets
  store_secrets-keys t [] w = refl
  store_secrets-keys t ((n, v) ∷ rest) w =
      grind (arith, store_secret-keys c kek t n v env (some n), store_secrets-keys t rest)

  onboard-keys :
      (tenant : Tenant) (spec : ProviderSpec) (w : World D)
      → keys (onboard_or_500 p c kek settings tenant spec w).1.session ≡ keys w.session
  unfolding onboard
  onboard-keys tenant spec w = grind (arith, get_decrypted_secrets-keys c kek)

  -- A tenant whose container runs, as its committed row says, under the slug and with the provider
  -- that are answered.
  abbrev Provisioned : ProvisionResponse → World D → Type 0
  Provisioned response w =
      (t : Uuid) × ((id : Text) × ((response.tenant_id ≡ uuid_text t)
          × (Serves id (p.containers_get (container_name t) w.machine)
              × AsRunning t response.slug response.provider id w.committed)))

  launch-Provisioned :
      (req : ProvisionRequest) (spec : ProviderSpec) (tenant : Tenant) (w : World D)
      (response : ProvisionResponse)
      → HasRow tenant.tenant_id req.slug (some (provider_key_value spec.key)) w.session
      → let (r, w') = launch p c kek settings req spec tenant w in
        r ≡ ok response → Provisioned response w'
  unfolding launch
  launch-Provisioned req spec tenant w response has_row h =
      let t = tenant.tenant_id in
      let w1 = (in_machine (configure_tenant p settings t (some spec)) w).1 in
      elim (Result-cases (in_machine (configure_tenant p settings t (some spec)) w).0) [
        | inl (u, q) ↦ elim (Result-cases (start_tenant p c kek settings t w1).0) [
          | inl (id, r) ↦
              let w2 = (start_tenant p c kek settings t w1).1 in
              let (serves, says) = start_tenant-runs p laws c kek settings t w1 id r in
              let moved =
                HasRow-keys t req.slug (some (provider_key_value spec.key)) w1.session w2.session
                  (start_tenant-keys p c kek settings t w1) has_row in
              let row =
                said t req.slug (provider_key_value spec.key) id w2.session
                  (tenant_by_id t w2.session.db) refl moved says in
              let same : response ≡ response_of settings req spec t = ground arith in
              rw (q, r, continue, same) (t, (id, (refl, (serves, row))))
          | inr (x, r) ↦ absurd (ground arith)
        ]
        | inr (x, q) ↦ absurd (ground arith)
      ]

  -- Steps 1 to 6, once the row is made.
  abbrev equip : ProvisionRequest → ProviderSpec → Tenant → Op (World D) ProvisionResponse
  equip req spec tenant = do
    in_session (update_row tenant.tenant_id (set_provider (provider_key_value spec.key)))
    store_secrets p c kek settings tenant.tenant_id (given_secrets p c kek settings req.secrets)
    onboard_or_500 p c kek settings tenant spec
    launch p c kek settings req spec tenant

  equip-Provisioned :
      (req : ProvisionRequest) (spec : ProviderSpec) (tenant : Tenant) (w : World D)
      (response : ProvisionResponse)
      → HasRow tenant.tenant_id req.slug none w.session
      → let (r, w') = equip req spec tenant w in r ≡ ok response → Provisioned response w'
  equip-Provisioned req spec tenant w response has_row h =
      let t = tenant.tenant_id in
      let key = provider_key_value spec.key in
      let provide : Op (World D) ⊤ = in_session (update_row t (set_provider key)) in
      let store = store_secrets p c kek settings t (given_secrets p c kek settings req.secrets) in
      let board = onboard_or_500 p c kek settings tenant spec in
      let w1 = (provide w).1 in
      let w2 = (store w1).1 in
      let w3 = (board w2).1 in
      let row1 =
        update_row-HasRow t req.slug none (some key) (set_provider key) w.session (λ now r. refl)
          has_row in
      let row2 =
        HasRow-keys t req.slug (some key) w1.session w2.session
          (store_secrets-keys t (given_secrets p c kek settings req.secrets) w1) row1 in
      let row3 =
        HasRow-keys t req.slug (some key) w2.session w3.session (onboard-keys tenant spec w2)
          row2 in
      let goal = Provisioned response in
      ensured_by_last goal provide _ w response h λ u q1 h1.
        ensured_by_last goal store _ w1 response h1 λ v q2 h2.
          ensured_by_last goal board _ w2 response h2
            λ out q3 h3. launch-Provisioned req spec tenant w3 response row3 h3

  provision_tenant-Provisioned :
      (req : ProvisionRequest) (user : TokenPayload) (w : World D) (response : ProvisionResponse)
      → let (r, w') = in_request (provision_tenant p c kek settings req user) w in
        r ≡ ok response → Provisioned response w'
  unfolding provision_tenant
  provision_tenant-Provisioned req user w response h =
      let w0 : World D = record w { session = record w.session { db = w.committed } } in
      let w1 = (check_request p c kek settings req w0).1 in
      let create = create_tenant p c kek settings (creation_of req) (some user.user_id) in
      let goal = Provisioned response in
      ensured_by_last goal (check_request p c kek settings req) _ w0 response h λ spec q1 h1.
        ensured_by_last goal create _ w1 response h1 λ tenant q2 h2.
          equip-Provisioned req spec tenant (create w1).1 response
            (create_tenant-HasRow p c kek settings (creation_of req) (some user.user_id) w1 tenant
              q2)
            h2

  -- How a request that provisions a tenant ends.
  abbrev pub Concluded : Result ProvisionResponse → World D → World D → Type 0
  Concluded (ok response) w w' = Provisioned response w'
  Concluded (err e) w w' = w'.committed ≡ w.committed

  concluded :
      (r : Result ProvisionResponse) (w w' : World D)
      → ((response : ProvisionResponse) → r ≡ ok response → Provisioned response w')
      → ((e : Exc) → r ≡ err e → w'.committed ≡ w.committed)
      → Concluded r w w'
  concluded (ok response) w w' f g = f response refl
  concluded (err e) w w' f g = g e refl

  -- Under the Docker laws, provisioning that returns has committed the row of a tenant with the
  -- identifier, the slug and the provider that it answers, as running in a container that is there
  -- under the tenant's name and runs; provisioning that ends in an exception, at whatever step,
  -- has committed nothing.
  pub provision_tenant-Concluded :
      (req : ProvisionRequest) (user : TokenPayload) (w : World D)
      → let (r, w') = in_request (provision_tenant p c kek settings req user) w in Concluded r w w'
  provision_tenant-Concluded req user w =
      let (r, w') = in_request (provision_tenant p c kek settings req user) w in
      concluded r w w' (provision_tenant-Provisioned req user w)
        (provision_tenant-atomic p c kek settings req user w)
