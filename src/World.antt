-- ===== src/World.antt =====
-- What a request works on: the database session, the database as committed, and the machine.
use octw.Exec.{ok, ⊤, Op}
use octw.Db.{Db, Session}

pub record World (D : Type 0) : Type 0 where
  pub session : Session
  pub committed : Db
  pub machine : D

module _ {D A : Type 0} where
  abbrev pub in_session : Op Session A → Op (World D) A
  in_session m w = let (r, s) = m w.session in (r, record w { session = s })

  abbrev pub in_machine : Op D A → Op (World D) A
  in_machine m w = let (r, d) = m w.machine in (r, record w { machine = d })

-- `session.commit()`
abbrev pub commit : {D : Type 0} → Op (World D) ⊤
commit w = (ok tt, record w { committed = w.session.db })
