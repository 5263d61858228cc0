-- ===== src/Platform.antt =====
-- What the orchestrator (src/octw/orchestrator/docker_orch.py) asks of the machine: the Docker SDK and
-- the calls of the operating system, as an interface over a state that is left abstract.
use octw.Prelude.{ℕ, Text, Bool, Option, List, Dict}
use octw.Exec.{Result, ⊤}
use octw.Json.{Value}

-- `container.status`
pub data ContainerStatus : Type 0 where
  created running paused restarting removing exited dead : ContainerStatus

-- The attributes of a container that the source reads; `networks` is
-- `attrs["NetworkSettings"]["Networks"]`.
pub record Container : Type 0 where
  pub name : Text
  pub id : Text
  pub status : ContainerStatus
  pub networks : Dict (Dict Text)

pub record Network : Type 0 where
  pub name : Text
  pub id : Text

-- `Mount(target, source, type="bind")`
pub record Mount : Type 0 where
  pub target : Text
  pub source : Text

pub record Healthcheck : Type 0 where
  pub test : List Text
  pub interval : ℕ
  pub timeout : ℕ
  pub retries : ℕ
  pub start_period : ℕ

-- The arguments of `containers.run`, all with `detach=True`; `none` is an argument left out.
pub record RunSpec : Type 0 where
  pub image : Text
  pub name : Text
  pub entrypoint : Option (List Text)
  pub command : Option (List Text)
  pub working_dir : Option Text
  pub environment : Dict Text
  pub mounts : List Mount
  pub network : Option Text
  pub runtime : Option Text
  pub security_opt : List Text
  pub cap_drop : List Text
  pub mem_limit : Option Text
  pub cpu_quota : Option ℕ
  pub cpu_period : Option ℕ
  pub pids_limit : Option ℕ
  pub user : Text
  pub labels : Dict Text
  pub restart_policy : Option Text
  pub healthcheck : Option Healthcheck

pub record NetworkSpec : Type 0 where
  pub name : Text
  pub driver : Text
  pub internal : Bool
  pub labels : Dict Text

-- Each call returns or raises. The queries change nothing; the other calls may change the machine
-- even when they raise.
pub record Platform (D : Type 0) : Type 0 where
  pub containers_get : Text → D → Result Container
  pub containers_run : RunSpec → D → Result Container × D
  pub container_pause : Container → D → Result ⊤ × D
  pub container_unpause : Container → D → Result ⊤ × D
  pub container_stop : Container → ℕ → D → Result ⊤ × D
  pub container_remove : Container → Bool → D → Result ⊤ × D
  pub container_wait : Container → ℕ → D → Result (Option ℕ) × D
  pub container_logs : Container → Option ℕ → Option ℕ → D → Result Text
  pub networks_get : Text → D → Result Network
  pub networks_create : NetworkSpec → D → Result Network × D
  pub network_remove : Network → D → Result ⊤ × D
  pub network_connect : Network → Text → D → Result ⊤ × D
  pub makedirs : Text → D → Result ⊤ × D
  pub chmod : Text → ℕ → D → Result ⊤ × D
  pub chown : Text → ℕ → ℕ → D → Result ⊤ × D
  pub getuid : D → ℕ
  pub path_exists : Text → D → Bool
  pub rmtree : Text → D → Result ⊤ × D
  pub sudo_rm : Text → D → Result ⊤ × D
  -- `json.loads(path.read_text())`, `path.read_bytes()` and `path.write_text(json.dumps(value, indent=2))`
  pub read_json : Text → D → Result Value
  pub read_bytes : Text → D → Result Text
  pub write_json : Text → Value → D → Result ⊤ × D
