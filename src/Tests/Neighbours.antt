-- ===== src/Tests/Neighbours.antt =====
-- The second tenant of the sample while the first one is started.
use octw.Prelude.{
  ℕ, Text, codes, [], ◌∷◌, ◌≡◌, ◌≢◌, refl, ap, ◌==◌, text_eq, text_beq_iff, not, arith, find,
  find-keep,
}
use octw.Config.{default_settings}
use octw.Platform.{Container, running, paused, exited}
use octw.World.{World}
use octw.Orchestrator.Names.{container_name}
use octw.Orchestrator.Apart.{ApartLaws}
use octw.Api.Requests.{Request, serve}
use octw.Api.Isolation.{belongings}
use octw.Api.Untouched.{serve-untouched}
use octw.Tests.Machine.{Machine, boxes, marks, get, drop, set, get-name, or_missing, fresh}
use octw.Tests.Sample.{world, kek, ann}

get-drop_other : (m n : Text) (d : Machine) → m ≢ n → get n (drop m d) ≡ get n d
get-drop_other m n d apart = ap or_missing (
    find-keep (λ c. not (c.name == m)) (λ c. c.name == n) d
      (λ c h. ground (arith, text_beq_iff c.name n, text_beq_iff c.name m)))

get-set_other : (c : Container) (n : Text) (d : Machine) → c.name ≢ n → get n (set c d) ≡ get n d
unfolding find
get-set_other c n d apart = ground (arith, text_beq_iff c.name n, get-drop_other c.name n d apart)

boxes-ApartLaws : (n : Text) → ApartLaws boxes n
boxes-ApartLaws n = record {
  finds = λ {m} {d} {c} h. get-name m d {c = c} h;
  runs = λ spec d apart. get-set_other (fresh spec) n d apart;
  pauses = λ c d apart. get-set_other (record c { status = paused }) n d apart;
  unpauses = λ c d apart. get-set_other (record c { status = running }) n d apart;
  stops = λ c k d apart. get-set_other (record c { status = exited }) n d apart;
  removes = λ c f d apart. get-drop_other c.name n d apart;
  networks_create_same = λ spec d m. refl;
  network_remove_same = λ net d m. refl;
  makedirs_same = λ t d m. refl;
  chmod_same = λ t mode d m. refl;
  chown_same = λ t u g d m. refl;
  rmtree_same = λ t d m. refl;
  sudo_rm_same = λ t d m. refl;
}

-- Both tenants have a container.
abbrev both : World Machine
both = record world {
  machine =
      record { name = container_name 1; id = codes "box"; status = exited; networks = [] }
      ∷ record { name = container_name 2; id = codes "bin"; status = paused; networks = [] }
      ∷ [];
}

abbrev one_started : World Machine
one_started = (serve boxes marks kek default_settings Request.start_runtime 1 ann both).1

one-ne-two : ◌≢◌ {A = ℕ} 1 2
one-ne-two = omega arith

serve-untouched_example :
    (belongings 2 one_started.committed ≡ belongings 2 both.committed)
    × (boxes.containers_get (container_name 2) one_started.machine
        ≡ boxes.containers_get (container_name 2) both.machine)
serve-untouched_example =
    serve-untouched boxes marks kek default_settings Request.start_runtime 1 2 ann both
      (omega arith) (omega arith) one-ne-two (boxes-ApartLaws (container_name 2))
