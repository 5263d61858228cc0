-- ===== src/Hibernation/Loop.antt =====
-- src/octw/orchestrator/hibernation.py: the object of the scheduler, and its loop between the calls of
-- `stop` that other tasks make while it waits.
use octw.Prelude.{Bool, true, false, List, [], ◌∷◌, if◌then◌else◌}
use octw.Config.{Settings}
use octw.Models.Tenant.{Time}
use octw.Platform.{Platform}
use octw.World.{World}
use octw.Hibernation.Scheduler.{check_idle_tenants, at_time}

-- `_running`; the orchestrator is the platform.
pub record HibernationScheduler : Type 0 where
  pub is_running : Bool

abbrev pub init : HibernationScheduler
init = record { is_running = false }

-- What happens while `run` has not returned: it comes round to the test of its loop, or a task calls
-- `stop`, during a pass or between two.
pub data Event : Type 0 where
  comes_round : Time → Event
  stops : Event

-- A call of `run` under way, or that has returned.
pub record Running (D : Type 0) : Type 0 where
  pub scheduler : HibernationScheduler
  pub has_returned : Bool
  pub world : World D

module _ {D : Type 0} where
  -- `run` up to its loop.
  unfoldable pub enter : HibernationScheduler → World D → Running D
  enter scheduler w = record {
    scheduler = record scheduler { is_running = true };
    has_returned = false;
    world = w;
  }

  unfoldable pub stop : Running D → Running D
  stop l = record l { scheduler = record l.scheduler { is_running = false } }

module _ {D : Type 0} (p : Platform D) (settings : Settings) where
  -- The test of the loop and, while `_running` holds, its body.
  unfoldable pub come_round : Time → Running D → Running D
  come_round now l =
      if l.has_returned
      then l
      else if l.scheduler.is_running
      then record l { world = (check_idle_tenants p settings (at_time p now l.world)).1 }
      else record l { has_returned = true }

  unfoldable pub after : List Event → Running D → Running D
  after [] l = l
  after (comes_round now ∷ events) l = after events (come_round now l)
  after (stops ∷ events) l = after events (stop l)
