-- ===== src/Orchestrator/Laws.antt =====
-- What the orchestrator relies on of the Docker SDK: how each call changes what `containers.get`
-- answers.
use octw.Prelude.{ℕ, Text, Bool, ◌≡◌}
use octw.Exec.{ok, err, not_found}
use octw.Json.{Value}
use octw.Platform.{Platform, Container, RunSpec, Network, running, paused}

module _ {D : Type 0} (p : Platform D) where
  -- `containers.get` answers the same as before for every name.
  abbrev pub SameContainers : D → D → Type 0
  SameContainers d d' = (n : Text) → p.containers_get n d' ≡ p.containers_get n d

  pub record DockerLaws : Type 0 where
    pub gets_name : {n : Text} {d : D} {c : Container} → p.containers_get n d ≡ ok c → c.name ≡ n
    -- A container that is removed, or that a call does not find, is not found.
    pub removes :
        (c : Container) (f : Bool) (d : D)
        → (p.container_remove c f d).0 ≡ ok tt
        → p.containers_get c.name (p.container_remove c f d).1 ≡ err not_found
    pub remove_misses :
        (c : Container) (f : Bool) (d : D)
        → (p.container_remove c f d).0 ≡ err not_found
        → p.containers_get c.name (p.container_remove c f d).1 ≡ err not_found
    pub stop_misses :
        (c : Container) (k : ℕ) (d : D)
        → (p.container_stop c k d).0 ≡ err not_found
        → p.containers_get c.name (p.container_stop c k d).1 ≡ err not_found
    pub pauses :
        (c : Container) (d : D)
        → (p.container_pause c d).0 ≡ ok tt
        → p.containers_get c.name (p.container_pause c d).1 ≡ ok (record c { status = paused })
    pub pause_misses :
        (c : Container) (d : D)
        → (p.container_pause c d).0 ≡ err not_found
        → p.containers_get c.name (p.container_pause c d).1 ≡ err not_found
    pub unpauses :
        (c : Container) (d : D)
        → (p.container_unpause c d).0 ≡ ok tt
        → p.containers_get c.name (p.container_unpause c d).1 ≡ ok (record c { status = running })
    -- A container that is there is found by the call that unpauses it.
    pub unpause_finds :
        {n : Text} {d : D} {c : Container}
        → p.containers_get n d ≡ ok c
        → (p.container_unpause c d).0 ≡ err not_found
        → ⊥
    -- A container that is run is found under its name, with the id that is returned, and runs.
    pub runs :
        (spec : RunSpec) (d : D) {c : Container}
        → (p.containers_run spec d).0 ≡ ok c
        → p.containers_get spec.name (p.containers_run spec d).1
          ≡ ok (record c { status = running })
    -- A container that is not there stays away when another one is stopped, removed or paused.
    pub stop_absent :
        {m : Text} {c : Container} {d : D} (n : Text) (k : ℕ)
        → p.containers_get m d ≡ ok c
        → p.containers_get n d ≡ err not_found
        → p.containers_get n (p.container_stop c k d).1 ≡ err not_found
    pub remove_absent :
        (n : Text) (c : Container) (f : Bool) (d : D)
        → p.containers_get n d ≡ err not_found
        → p.containers_get n (p.container_remove c f d).1 ≡ err not_found
    pub pause_absent :
        {m : Text} {c : Container} {d : D} (n : Text)
        → p.containers_get m d ≡ ok c
        → p.containers_get n d ≡ err not_found
        → p.containers_get n (p.container_pause c d).1 ≡ err not_found
    -- Networks, directories and files are no containers.
    pub network_remove_same : (n : Network) (d : D) → SameContainers d (p.network_remove n d).1
    pub rmtree_same : (t : Text) (d : D) → SameContainers d (p.rmtree t d).1
    pub sudo_rm_same : (t : Text) (d : D) → SameContainers d (p.sudo_rm t d).1
    pub write_json_same : (t : Text) (v : Value) (d : D) → SameContainers d (p.write_json t v d).1
