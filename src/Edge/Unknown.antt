-- ===== src/Edge/Unknown.antt =====
-- src/octw/edge/proxy.py: a slug that no tenant has.
use octw.Prelude.{Text, codes, true, false, none, ◌≡◌, refl, arith, has, map, text_eq}
use octw.Exec.{err, http, continue}
use octw.Config.{Settings}
use octw.Platform.{Platform}
use octw.Uuid.Parse.{uuid_of_text}
use octw.Db.{Session, tenants_by_slug, slug_of, keep-nil}
use octw.Vault.Envelope.{Crypto}
use octw.World.{World}
use octw.Tenants.Service.{get_tenant_by_slug}
use octw.Api.Auth.{Tokens, get_current_user}
use octw.Api.InternalRouter.{resolve_tenant_id, get_status}
use octw.Edge.Slugs.{slug_pattern}
use octw.Edge.Urls.{ClientLaws, takes_list, takes_tenant}
use octw.Edge.Proxy.{Client, tenant_url, resolve_and_ensure}

-- A slug that is no UUID and that no tenant has names no tenant.
resolve_tenant_id-unknown :
    (slug : Text) (s : Session)
    → uuid_of_text slug ≡ none
    → has slug (map slug_of s.db.tenants) ≡ false
    → resolve_tenant_id slug s ≡ err (http 404)
unfolding resolve_tenant_id get_tenant_by_slug tenants_by_slug
resolve_tenant_id-unknown slug s n h = ground (arith, n, keep-nil slug_of slug s.db.tenants h)

module _ {D : Type 0} (p : Platform D) (c : Crypto) (kek : Text) (settings : Settings)
    (tokens : Tokens) (client : Client D) (laws : ClientLaws client) where
  get_status-unknown :
      (slug : Text) (w : World D)
      → resolve_tenant_id slug w.session ≡ err (http 404)
      → get_status p slug w ≡ (err (http 404), w)
  unfolding get_status
  get_status-unknown slug w h = rw (continue, h) refl

  -- Under the law of httpx, a slug that a tenant may have, but that is no UUID and that no
  -- committed tenant has, is answered 404, and neither the committed database nor the machine is
  -- changed.
  pub resolve_and_ensure-unknown :
      (slug : Text) (w : World D)
      → slug_pattern slug ≡ true
      → uuid_of_text slug ≡ none
      → has slug (map slug_of w.committed.tenants) ≡ false
      → let (r, w') = resolve_and_ensure p c kek settings tokens client slug w in
        (r ≡ err (http 404)) × (w'.committed ≡ w.committed) × (w'.machine ≡ w.machine)
  unfolding resolve_and_ensure octw.Edge.Urls.plain get_current_user
  resolve_and_ensure-unknown slug w s n h =
      let w0 : World D = record w { session = record w.session { db = w.committed } } in
      let unknown = resolve_tenant_id-unknown slug w0.session n h in
      let url = tenant_url slug (codes "/status") in
      let first = takes_list client laws in
      let second = takes_tenant client laws slug (codes "/status") s refl (omega arith) in
      rw (continue, first, second, get_status-unknown slug w0 unknown) (refl, refl, refl)
