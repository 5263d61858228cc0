-- ===== src/Orchestrator/Dirs.antt =====
-- src/octw/orchestrator/docker_orch.py: the directories of a tenant.
use octw.Prelude.{Text, codes, ◌++◌, ◌==◌, nat_eq}
use octw.Exec.{
  ⊤, Op, pure, raise, gets, ◌>>=◌, ◌>>◌, when, runtime_error, except_permission, except_os_error,
}
use octw.Config.{Settings}
use octw.Models.Tenant.{Uuid}
use octw.Platform.{Platform}
use octw.Orchestrator.Names.{tenant_dir}

pub record TenantDirs : Type 0 where
  pub state : Text
  pub workspace : Text
  pub logs : Text

unfoldable pub dirs_of : Settings → Uuid → TenantDirs
unfolding tenant_dir
dirs_of settings tenant_id =
    let base = tenant_dir settings tenant_id in
    record {
      state = base ++ codes "/state";
      workspace = base ++ codes "/workspace";
      logs = base ++ codes "/logs";
    }

module _ {D : Type 0} (p : Platform D) where
  -- The body of the loop. A directory that cannot be restricted is left as it is.
  unfoldable pub make_dir : Text → Op D ⊤
  make_dir d = do
    except_permission (p.makedirs d) (raise runtime_error)
    except_os_error (do p.chmod d 0o700; uid ← gets p.getuid; when (uid == 0) (p.chown d 1000 1000))
        (pure tt)

  module _ (settings : Settings) where
    unfoldable pub create_tenant_dirs : Uuid → Op D TenantDirs
    unfolding make_dir dirs_of
    create_tenant_dirs tenant_id = do
      let dirs = dirs_of settings tenant_id
      make_dir dirs.state
      make_dir dirs.workspace
      make_dir dirs.logs
      pure dirs

    unfoldable pub remove_tenant_dirs : Uuid → Op D ⊤
    remove_tenant_dirs tenant_id = do
      let base = tenant_dir settings tenant_id
      there ← gets (p.path_exists base)
      when there (except_permission (p.rmtree base) (p.sudo_rm base))
