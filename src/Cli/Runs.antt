-- ===== src/Cli/Runs.antt =====
-- The commands of src/octw/cli/main.py, together, each with a session of its own.
use octw.Prelude.{Text, Bool, Option, List}
use octw.Exec.{Op, pure, ◌>>=◌, ◌>>◌}
use octw.Config.{Settings}
use octw.Models.Tenant.{Tenant, IsolationMode, ContainerState, TenantRuntimeInfo}
use octw.Models.Secret.{SecretMetadata}
use octw.Json.{Value}
use octw.Platform.{Platform}
use octw.Vault.Envelope.{Crypto}
use octw.World.{World}
use octw.Api.Requests.{in_request}
use octw.Cli.Commands

pub data Command : Type 0 where
  tenant_create : Text → Text → Text → IsolationMode → Bool → Command
  tenant_list : Command
  tenant_start tenant_stop tenant_pause tenant_status : Text → Command
  tenant_delete : Text → Bool → Command
  secret_set : Text → Text → Text → Option Text → Command
  secret_list : Text → Command

-- What a command prints.
pub data Output : Type 0 where
  nothing : Output
  json : Value → Output
  lines : List (Tenant × ContainerState) → Output
  container : Text → Output
  info : TenantRuntimeInfo → Output
  metadata : List SecretMetadata → Output

module _ {D : Type 0} (p : Platform D) (c : Crypto) (settings : Settings)
    (kek_env : Option Text) where
  unfoldable pub command : Command → Op (World D) Output
  command (tenant_create slug name plan isolation no_trusted_proxy) = do
    v ← Commands.tenant_create p c settings kek_env slug name plan isolation no_trusted_proxy
    pure (json v)
  command tenant_list = do ts ← Commands.tenant_list p c settings kek_env; pure (lines ts)
  command (tenant_start t) = do
    id ← Commands.tenant_start p c settings kek_env t
    pure (container id)
  command (tenant_stop t) = do Commands.tenant_stop p c settings kek_env t; pure nothing
  command (tenant_pause t) = do Commands.tenant_pause p c settings kek_env t; pure nothing
  command (tenant_status t) = do i ← Commands.tenant_status p c settings kek_env t; pure (info i)
  command (tenant_delete t confirmed) = do
    Commands.tenant_delete p c settings kek_env t confirmed
    pure nothing
  command (secret_set t name value env_var) = do
    Commands.secret_set p c settings kek_env t name value env_var
    pure nothing
  command (secret_list t) = do ms ← Commands.secret_list p c settings kek_env t; pure (metadata ms)

  unfoldable pub run_command : Command → Op (World D) Output
  run_command x = in_request (command x)
