-- ===== src/Tests/EdgeCases.antt =====
-- Requests to the proxy: of the administrator, of nobody, and for a slug that no tenant has.
use octw.Prelude.{
  update_where, Text, codes, none, some, [], ◌∷◌, ◌++◌, ◌≡◌, refl, arith, lookup, has, text_beq,
  update_where, find, keep, starts_with,
}
use octw.Exec.{ok, err, http, Result}
use octw.Config.{default_settings}
use octw.Platform.{Container, paused, running}
use octw.Models.Tenant.{ContainerState}
use octw.Orchestrator.Containers.{get_container_state, get_container_ip}
use octw.Uuid.{uuid_text}
use octw.Uuid.Parse.{uuid_of_text}
use octw.Orchestrator.Names.{container_name, network_name}
use octw.World.{World}
use octw.Api.Auth.{create_access_token, decode_token}
use octw.Api.Tokens.{decode_token-create_access_token}
use octw.Edge.Proxy.{
  Incoming, Reply, authenticate, upstream_headers, resolve_and_ensure, proxy_path,
}
use octw.Edge.Headers.{upstream_headers-told}
use octw.Edge.Refuses.{proxy_path-refused}
use octw.Edge.Forwards.{Served, proxy_path-Served}
use octw.Edge.Fetches.{Reached, Names}
use octw.Edge.Reaches.{resolve_and_ensure-Reached}
use octw.Edge.Unknown.{resolve_and_ensure-unknown}
use octw.Tests.Machine.{Machine, boxes, boxes-DockerLaws, marks}
use octw.Tests.Sample.{world, kek, ann, sample}
use octw.Tests.Wires.{open_tokens, open_tokens-TokenLaws, echo, echo-ClientLaws}

-- The forms of a UUID that are read.
uuid_forms :
    (uuid_of_text (codes "00000000-0000-0000-0000-0000000000ff") ≡ some 255)
    × (uuid_of_text (codes "urn:uuid:{000000000000000000000000000000FF}") ≡ some 255)
    × (uuid_of_text (codes "0x00000000000000000000000000__ff") ≡ none)
    × (uuid_of_text (codes "0x000000000000000000000000000_ff") ≡ some 255)
    × (uuid_of_text (codes "acme") ≡ none)
unfolding uuid_of_text octw.Uuid.Parse.hex_of keep octw.Uuid.Parse.strip_right
    octw.Uuid.Parse.strip_left octw.Uuid.Parse.replace_all starts_with octw.Uuid.Parse.int_16
    octw.Uuid.Parse.scan octw.Uuid.Parse.digit_value
uuid_forms = (refl, refl, refl, refl, refl)

abbrev ann_token : Text
ann_token =
    create_access_token open_tokens default_settings 5000 10 (codes "ann@acme") (some 1) none

decode_token-create_access_token_example :
    decode_token open_tokens default_settings 5100 ann_token tt ≡ (ok ann, tt)
decode_token-create_access_token_example =
    decode_token-create_access_token open_tokens open_tokens-TokenLaws default_settings 5000 5100 10
      (codes "ann@acme") (some 1) none tt (omega arith) (omega arith) (omega arith)

abbrev plain_request : Incoming
plain_request = record {
  method = codes "GET";
  query = [];
  headers = (codes "x-octw-user-id", codes "root") ∷ (codes "accept", codes "text/html") ∷ [];
  cookies = [];
  client = some (codes "192.0.2.7");
  body = [];
}

abbrev ann_request : Incoming
ann_request = record plain_request {
  headers = (codes "authorization", codes "Bearer " ++ ann_token) ∷ [];
}

-- A client cannot say who it is.
upstream_headers-told_example :
    lookup
      (codes "x-octw-user-id")
      (upstream_headers (codes "acme") ann plain_request.client plain_request.headers)
    ≡ some (uuid_text 10)
unfolding text_beq
upstream_headers-told_example =
    upstream_headers-told (codes "acme") ann plain_request.client plain_request.headers
      (codes "x-octw-user-id")

proxy_path-refused_example :
    proxy_path boxes marks kek default_settings open_tokens echo
      (codes "acme")
      []
      plain_request
      world
    ≡ (err (http 401), world)
unfolding authenticate starts_with lookup text_beq has octw.Edge.Slugs.slug_re
    octw.Edge.Slugs.route_tail
proxy_path-refused_example =
    proxy_path-refused boxes marks kek default_settings open_tokens echo (codes "acme") []
      plain_request world refl

-- The container of the first tenant, which sleeps.
abbrev asleep : Container
asleep = record {
  name = container_name 1;
  id = codes "box";
  status = paused;
  networks = (network_name 1, (codes "IPAddress", codes "10.0.0.2") ∷ []) ∷ [];
}

abbrev sleeping : World Machine
sleeping = record world { machine = asleep ∷ [] }

-- It is awake.
abbrev awake : World Machine
awake = record world { machine = record asleep { status = running } ∷ [] }

abbrev answered : Result Reply × World Machine
answered =
    proxy_path boxes marks kek default_settings open_tokens echo (codes "acme") [] ann_request awake

acme_is_one : Names boxes (codes "acme") awake 1
unfolding octw.Api.InternalRouter.resolve_tenant_id uuid_of_text octw.Uuid.Parse.hex_of keep
    octw.Uuid.Parse.strip_right octw.Uuid.Parse.strip_left octw.Uuid.Parse.replace_all starts_with
    octw.Tenants.Service.get_tenant_by_slug octw.Db.tenants_by_slug text_beq
    octw.Tenants.Rows.row_to_tenant
acme_is_one = refl

box_runs :
    (get_container_state boxes 1 awake.machine ≡ ok ContainerState.running)
    × (get_container_ip boxes 1 awake.machine ≡ ok (some (codes "10.0.0.2")))
unfolding octw.Orchestrator.Containers.get_container_state find text_beq container_name uuid_text
    octw.Orchestrator.Containers.state_of octw.Orchestrator.Containers.get_container_ip lookup
    network_name octw.Uuid.hex octw.Uuid.hex_digit
box_runs = (refl, refl)

proxy_path-Served_example :
    Served echo (codes "acme") ann (codes "10.0.0.2") [] ann_request awake answered.0 answered.1
unfolding octw.Edge.Slugs.slug_pattern octw.Edge.Slugs.slug_tail has text_beq lookup
proxy_path-Served_example =
    proxy_path-Served boxes marks kek default_settings open_tokens echo echo-ClientLaws
      open_tokens-TokenLaws (codes "acme") [] 5000 ann none ann_request 1 b'1' (codes "0.0.0.2")
      awake refl refl (omega arith) (omega arith) (omega arith) refl acme_is_one box_runs.0
      box_runs.1 refl

abbrev woken : Result Text × World Machine
woken = resolve_and_ensure boxes marks kek default_settings open_tokens echo (codes "acme") sleeping

resolve_and_ensure-Reached_example : Reached boxes (codes "acme") (codes "10.0.0.2") woken.1
unfolding resolve_and_ensure octw.Api.InternalRouter.get_status
    octw.Api.InternalRouter.resolve_tenant_id uuid_of_text octw.Uuid.Parse.hex_of keep
    octw.Uuid.Parse.strip_right octw.Uuid.Parse.strip_left octw.Uuid.Parse.replace_all starts_with
    octw.Tenants.Service.get_tenant_by_slug octw.Db.tenants_by_slug octw.Api.Auth.get_current_user
    text_beq octw.Orchestrator.Containers.get_container_state find
    octw.Orchestrator.Containers.state_of octw.Orchestrator.Containers.get_container_ip lookup
    octw.Edge.Proxy.next_of octw.Edge.Proxy.go_on octw.Edge.Proxy.after_ensure
    octw.Api.InternalRouter.ensure_running octw.Tenants.Service.wake_tenant
    octw.Tenants.Service.wake_from octw.Tenants.Rows.update_row octw.Tenants.Rows.emit_audit
    octw.Orchestrator.Containers.unpause_container octw.Tenants.Service.get_tenant
    octw.Db.tenant_by_id octw.Tenants.Rows.row_to_tenant update_where octw.Db.add_audit_event
    uuid_text octw.Uuid.hex octw.Uuid.hex_digit octw.Db.update_tenant container_name network_name
resolve_and_ensure-Reached_example =
    resolve_and_ensure-Reached boxes boxes-DockerLaws marks kek default_settings open_tokens echo
      (codes "acme") (codes "10.0.0.2") sleeping refl

abbrev nobody : Result Text × World Machine
nobody = resolve_and_ensure boxes marks kek default_settings open_tokens echo (codes "nobody") world

resolve_and_ensure-unknown_example :
    (nobody.0 ≡ err (http 404)) × (nobody.1.committed ≡ sample) × (nobody.1.machine ≡ [])
unfolding octw.Edge.Slugs.slug_pattern octw.Edge.Slugs.slug_tail uuid_of_text octw.Uuid.Parse.hex_of
    keep octw.Uuid.Parse.strip_right octw.Uuid.Parse.strip_left octw.Uuid.Parse.replace_all
    starts_with has text_beq
resolve_and_ensure-unknown_example =
    resolve_and_ensure-unknown boxes marks kek default_settings open_tokens echo echo-ClientLaws
      (codes "nobody") world refl refl refl
