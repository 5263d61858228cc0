-- ===== src/Hibernation/Stops.antt =====
-- src/octw/orchestrator/hibernation.py: how the loop comes to its end.
use octw.Prelude.{Bool, true, false, List, [], ◌∷◌, ◌++◌, map, ◌≡◌, refl}
use octw.Config.{Settings}
use octw.Models.Tenant.{Time}
use octw.Platform.{Platform}
use octw.World.{World}
use octw.Hibernation.Scheduler.{check_idle_tenants, at_time, run}
use octw.Hibernation.Loop.{
  HibernationScheduler, Event, comes_round, stops, Running, enter, stop, come_round, after,
}

-- Whether the loop comes round once more.
abbrev pub comes_again : List Event → Bool
comes_again [] = false
comes_again (comes_round now ∷ events) = true
comes_again (stops ∷ events) = comes_again events

abbrev called : {D : Type 0} → Bool → Bool → World D → Running D
called going done w = record {
  scheduler = record { is_running = going };
  has_returned = done;
  world = w;
}

module _ {D : Type 0} (p : Platform D) (cfg : Settings) where
  after-returned :
      (events : List Event) (going : Bool) (w : World D)
      → let l = after p cfg events (called going true w) in (l.world ≡ w) × (l.has_returned ≡ true)
  unfolding after come_round stop
  after-returned [] going w = (refl, refl)
  after-returned (comes_round now ∷ events) going w = after-returned events going w
  after-returned (stops ∷ events) going w = after-returned events false w

  after-stopped :
      (events : List Event) (w : World D)
      → let l = after p cfg events (called false false w) in
        (l.world ≡ w) × (l.has_returned ≡ comes_again events)
  unfolding after come_round stop
  after-stopped [] w = (refl, refl)
  after-stopped (comes_round now ∷ events) w = after-returned events false w
  after-stopped (stops ∷ events) w = after-stopped events w

  after-running :
      (times : List Time) (events : List Event) (w : World D)
      → let l = after p cfg (map comes_round times ++ stops ∷ events) (called true false w) in
        (l.world ≡ run p cfg times w) × (l.has_returned ≡ comes_again events)
  unfolding after come_round stop run
  after-running [] events w = after-stopped events w
  after-running (now ∷ times) events w =
      after-running times events (check_idle_tenants p cfg (at_time p now w)).1

  -- A call of `run` during which `stop` is called makes the passes for which it had come round
  -- before, and no other, and has returned as soon as it comes round once more, whatever was
  -- called on the scheduler before.
  pub after-stops :
      (times : List Time) (events : List Event) (scheduler : HibernationScheduler) (w : World D)
      → let l = after p cfg (map comes_round times ++ stops ∷ events) (enter scheduler w) in
        (l.world ≡ run p cfg times w) × (l.has_returned ≡ comes_again events)
  unfolding enter
  after-stops times events scheduler w = after-running times events w
