-- ===== src/Orchestrator/Names.antt =====
-- src/octw/orchestrator/docker_orch.py: names, paths and the image of a tenant.
use octw.Prelude.{Text, codes, [], ◌++◌, truthy, or_text, before, if◌then◌else◌}
use octw.Config.{Settings}
use octw.Models.Tenant.{Uuid, Tenant}
use octw.Uuid.{uuid_text}

abbrev pub gateway_port : Text
gateway_port = codes "18789"

abbrev pub canvas_port : Text
canvas_port = codes "18790"

abbrev pub container_state_dir : Text
container_state_dir = codes "/home/node/.openclaw"

abbrev pub container_workspace_dir : Text
container_workspace_dir = codes "/home/node/.openclaw/workspace"

unfoldable pub tenant_dir : Settings → Uuid → Text
tenant_dir settings tenant_id = settings.tenant_base_dir ++ (codes "/" ++ uuid_text tenant_id)

unfoldable pub container_name : Uuid → Text
container_name tenant_id = codes "octw_tenant_" ++ uuid_text tenant_id

unfoldable pub network_name : Uuid → Text
network_name tenant_id = codes "octw_tenant_" ++ uuid_text tenant_id

unfoldable pub init_name : Uuid → Text
init_name tenant_id = codes "octw_init_" ++ uuid_text tenant_id

-- `_image_ref`: a digest takes the place of the tag.
unfoldable pub image_ref : Settings → Tenant → Text
image_ref settings tenant =
    if truthy tenant.openclaw_digest
    then (let base = or_text tenant.openclaw_image settings.openclaw_image in
        let ref = before b':' (before b'@' base) in
        ref ++ (codes "@" ++ or_text tenant.openclaw_digest []))
    else or_text tenant.openclaw_image settings.openclaw_image
