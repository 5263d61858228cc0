-- ===== src/Orchestrator/Apart.antt =====
-- What is found under one name while src/octw/orchestrator/docker_orch.py works on other containers.
use octw.Prelude.{ℕ, Text, Bool, true, ◌≡◌, ◌≢◌, ◌∙◌, ◌==◌, text_eq, text_beq_iff, not, arith}
use octw.Exec.{Result, ok}
use octw.Platform.{Platform, Container, RunSpec, Network, NetworkSpec}
use octw.Orchestrator.Laws.{SameContainers}
use octw.Orchestrator.Keeps.{MachineInvariant}

-- A call of the Docker SDK on a container of another name does not change what `containers.get`
-- answers for this one, and networks, directories and files are no containers.
pub record ApartLaws {D : Type 0} (p : Platform D) (n : Text) : Type 0 where
  pub finds : {m : Text} {d : D} {c : Container} → p.containers_get m d ≡ ok c → c.name ≡ m
  pub runs :
      (spec : RunSpec) (d : D)
      → spec.name ≢ n
      → p.containers_get n (p.containers_run spec d).1 ≡ p.containers_get n d
  pub pauses :
      (c : Container) (d : D)
      → c.name ≢ n
      → p.containers_get n (p.container_pause c d).1 ≡ p.containers_get n d
  pub unpauses :
      (c : Container) (d : D)
      → c.name ≢ n
      → p.containers_get n (p.container_unpause c d).1 ≡ p.containers_get n d
  pub stops :
      (c : Container) (k : ℕ) (d : D)
      → c.name ≢ n
      → p.containers_get n (p.container_stop c k d).1 ≡ p.containers_get n d
  pub removes :
      (c : Container) (f : Bool) (d : D)
      → c.name ≢ n
      → p.containers_get n (p.container_remove c f d).1 ≡ p.containers_get n d
  pub networks_create_same :
      (spec : NetworkSpec) (d : D) → SameContainers p d (p.networks_create spec d).1
  pub network_remove_same : (net : Network) (d : D) → SameContainers p d (p.network_remove net d).1
  pub makedirs_same : (t : Text) (d : D) → SameContainers p d (p.makedirs t d).1
  pub chmod_same : (t : Text) (mode : ℕ) (d : D) → SameContainers p d (p.chmod t mode d).1
  pub chown_same : (t : Text) (u g : ℕ) (d : D) → SameContainers p d (p.chown t u g d).1
  pub rmtree_same : (t : Text) (d : D) → SameContainers p d (p.rmtree t d).1
  pub sudo_rm_same : (t : Text) (d : D) → SameContainers p d (p.sudo_rm t d).1

-- Every name but this one.
abbrev pub other_names : Text → Text → Bool
other_names n m = not (m == n)

is_other : (n m : Text) → other_names n m ≡ true → m ≢ n
is_other n m h e = ground (arith, text_beq_iff m n)

module _ {D : Type 0} (p : Platform D) (n : Text) (laws : ApartLaws p n)
    (x : Result Container) where
  -- What was found under the name is found.
  abbrev pub Found : D → Type 0
  Found d = p.containers_get n d ≡ x

  pub Found-MachineInvariant : MachineInvariant p (other_names n) Found
  Found-MachineInvariant = record {
    finds = laws.finds;
    runs = λ spec d i h. laws.runs spec d (is_other n spec.name i) ∙ h;
    pauses = λ c d i h. laws.pauses c d (is_other n c.name i) ∙ h;
    unpauses = λ c d i h. laws.unpauses c d (is_other n c.name i) ∙ h;
    stops = λ c k d i h. laws.stops c k d (is_other n c.name i) ∙ h;
    removes = λ c f d i h. laws.removes c f d (is_other n c.name i) ∙ h;
    creates_network = λ spec d h. laws.networks_create_same spec d n ∙ h;
    removes_network = λ net d h. laws.network_remove_same net d n ∙ h;
    makes_dirs = λ t d h. laws.makedirs_same t d n ∙ h;
    changes_mode = λ t mode d h. laws.chmod_same t mode d n ∙ h;
    changes_owner = λ t u g d h. laws.chown_same t u g d n ∙ h;
    removes_tree = λ t d h. laws.rmtree_same t d n ∙ h;
    removes_by_sudo = λ t d h. laws.sudo_rm_same t d n ∙ h;
  }
