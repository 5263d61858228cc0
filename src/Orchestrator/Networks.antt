-- ===== src/Orchestrator/Networks.antt =====
-- src/octw/orchestrator/docker_orch.py: the network of a tenant.
use octw.Prelude.{Text, codes, true, [], ◌∷◌}
use octw.Exec.{⊤, Op, pure, lift, gets, ◌>>=◌, except_not_found, except_exception}
use octw.Models.Tenant.{Uuid}
use octw.Uuid.{uuid_text}
use octw.Platform.{Platform, NetworkSpec}
use octw.Orchestrator.Names.{network_name}

-- Without a route to the outside.
unfoldable pub network_spec : Uuid → NetworkSpec
unfolding network_name
network_spec tenant_id = record {
  name = network_name tenant_id;
  driver = codes "bridge";
  internal = true;
  labels = (codes "octw.tenant_id", uuid_text tenant_id) ∷ [];
}

module _ {D : Type 0} (p : Platform D) where
  unfoldable pub create_network : Uuid → Op D Text
  unfolding network_name network_spec
  create_network tenant_id =
      except_not_found
        (do found ← gets (p.networks_get (network_name tenant_id)); net ← lift found; pure net.id)
        (do net ← p.networks_create (network_spec tenant_id); pure net.id)

  unfoldable pub remove_network : Uuid → Op D ⊤
  unfolding network_name
  remove_network tenant_id =
      except_not_found
        (do
          found ← gets (p.networks_get (network_name tenant_id))
          net ← lift found
          p.network_remove net)
        (pure tt)

  -- Every failure is logged and passed over.
  unfoldable pub connect_edge_to_network : Uuid → Text → Op D ⊤
  unfolding network_name
  connect_edge_to_network tenant_id edge_container =
      except_exception
        (do
          found ← gets (p.networks_get (network_name tenant_id))
          net ← lift found
          p.network_connect net edge_container)
        (pure tt)
