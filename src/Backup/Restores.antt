-- ===== src/Backup/Restores.antt =====
-- `backup_tenant` and `restore_tenant` of src/octw/orchestrator/backup.py together.
use mathlib.Core.List.{append_assoc}
use octw.Prelude.{
  Bool-cases, Text, codes, [], ◌++◌, Option, none, some, ◌≡◌, ◌≢◌, inl, inr, refl, sym, ◌∙◌, ap,
  arith, starts_with, false, true,
}
use octw.Exec.{Result-cases, ok}
use octw.Config.{Settings}
use octw.Clock.{stamp}
use octw.Models.Tenant.{Uuid, Time}
use octw.Platform.{Platform}
use octw.Orchestrator.Names.{tenant_dir}
use octw.Backup.Archives.{Archives, ArchiveLaws, or_else, under}
use octw.Backup.Service.{backup_path, archive_path, write_archive, backup_tenant, restore_tenant}

abbrev state : Text
state = codes "state"

abbrev workspace : Text
workspace = codes "workspace"

or_else-none {ℓ} : {A : Type ℓ} (o : Option A) → or_else o none ≡ o
or_else-none none = refl
or_else-none (some x) = refl

under-under : (x y z : Text) → under (under x y) z ≡ under x (under y z)
under-under x y z = append_assoc x (codes "/" ++ y) (codes "/" ++ z)

module _ {D : Type 0} (a : Archives D) (z directory : Text) (d : D) where
  abbrev created : D
  created = (a.create z d).1

  abbrev with_state : D
  with_state = (a.add z (under directory state) state created).1

  abbrev with_workspace : D
  with_workspace = (a.add z (under directory workspace) workspace with_state).1

  -- No call of `write_archive` raised.
  record Written : Type 0 where
    creates : (a.create z d).0 ≡ ok tt
    adds_state : (a.add z (under directory state) state created).0 ≡ ok tt
    adds_workspace : (a.add z (under directory workspace) workspace with_state).0 ≡ ok tt
    closes : (a.close z true with_workspace).0 ≡ ok tt
    ends : (write_archive a z directory d).1 ≡ (a.close z true with_workspace).1

  write_archive-Written : (write_archive a z directory d).0 ≡ ok tt → Written
  unfolding write_archive
  write_archive-Written h = elim (Result-cases (a.create z d).0) [
    | inr (e, q) ↦ absurd (ground arith)
    | inl (u, q) ↦ elim (Result-cases (a.add z (under directory state) state created).0) [
      | inr (e, q') ↦ absurd (ground arith)
      | inl (u', q') ↦
          elim (Result-cases (a.add z (under directory workspace) workspace with_state).0) [
            | inr (e, q'') ↦ absurd (ground arith)
            | inl (u'', q'') ↦ ground arith
          ]
    ]
  ]

module _ {D : Type 0} {p : Platform D} {a : Archives D} {file : Text → D → Option Text}
    {member : Text → Text → D → Option Text} (laws : ArchiveLaws p a file member) where
  module _ (z directory n : Text) (d : D) (apart : (m : Text) → under directory m ≢ z) where
    apart_under : (name : Text) → under (under directory name) n ≢ z
    apart_under name e = apart (under name n) (sym (under-under directory name n) ∙ e)

    with_state-member :
        Written a z directory d
        → member z (under state n) (with_state a z directory d)
          ≡ file (under (under directory state) n) d
    with_state-member w =
        laws.adds z (under directory state) state n (created a z directory d) w.adds_state
          (apart_under state)
        ∙ rw
            (
              laws.creates z (under state n) d w.creates,
              laws.create_keeps z (under (under directory state) n) d (apart_under state),
            )
            (or_else-none (file (under (under directory state) n) d))

    write_archive-state :
        Written a z directory d
        → member z (under state n) (write_archive a z directory d).1
          ≡ file (under (under directory state) n) d
    unfolding starts_with
    write_archive-state w = rw w.ends (
        laws.closes z (under state n) (with_workspace a z directory d) w.closes
        ∙ laws.add_members z (under directory workspace) workspace (under state n)
            (with_state a z directory d) w.adds_workspace refl
        ∙ with_state-member w)

    write_archive-workspace :
        Written a z directory d
        → member z (under workspace n) (write_archive a z directory d).1
          ≡ file (under (under directory workspace) n) d
    unfolding starts_with
    write_archive-workspace w =
        let before =
          laws.add_members z (under directory state) state (under workspace n)
            (created a z directory d) w.adds_state refl
          ∙ laws.creates z (under workspace n) d w.creates in
        let kept =
          laws.add_keeps z (under directory state) state (under (under directory workspace) n)
            (created a z directory d) (apart_under workspace)
          ∙ laws.create_keeps z (under (under directory workspace) n) d (apart_under workspace) in
        rw w.ends (
          laws.closes z (under workspace n) (with_workspace a z directory d) w.closes
          ∙ laws.adds z (under directory workspace) workspace n (with_state a z directory d)
              w.adds_workspace (apart_under workspace)
          ∙ rw (before, kept) (or_else-none (file (under (under directory workspace) n) d)))

    write_archive-other :
        (m : Text)
        → starts_with (under state []) m ≡ false
        → starts_with (under workspace []) m ≡ false
        → Written a z directory d
        → member z m (write_archive a z directory d).1 ≡ none
    write_archive-other m not_state not_workspace w = rw w.ends (
        laws.closes z m (with_workspace a z directory d) w.closes
        ∙ laws.add_members z (under directory workspace) workspace m (with_state a z directory d)
            w.adds_workspace not_workspace
        ∙ laws.add_members z (under directory state) state m (created a z directory d) w.adds_state
            not_state
        ∙ laws.creates z m d w.creates)

  module _ (settings : Settings) where
    -- A backup that returned has written its archive from a machine with the same files.
    record Backed (tenant_id : Uuid) (now : Time) (d : D) (z : Text) (before : D) : Type 0 where
      same_files : (f : Text) → file f before ≡ file f d
      writes : Written a z (tenant_dir settings tenant_id) before
      ends :
          (backup_tenant a p settings tenant_id now d).1
          ≡ (write_archive a z (tenant_dir settings tenant_id) before).1

    backup_tenant-Backed :
        (tenant_id : Uuid) (now : Time) (d : D) (z : Text)
        → (backup_tenant a p settings tenant_id now d).0 ≡ ok z
        → (before : D) × Backed tenant_id now d z before
    unfolding backup_tenant
    backup_tenant-Backed tenant_id now d z h =
        let dir = tenant_dir settings tenant_id in
        elim (Bool-cases (p.path_exists dir d)) [
          | inr q ↦ absurd (ground arith)
          | inl q ↦ elim (Result-cases (stamp now)) [
            | inr (e, q1) ↦ absurd (ground arith)
            | inl (ts, q1) ↦ elim (Result-cases (p.makedirs (backup_path tenant_id ts) d).0) [
              | inr (e, q2) ↦ absurd (ground arith)
              | inl (u, q2) ↦
                  let before = (p.makedirs (backup_path tenant_id ts) d).1 in
                  elim (Result-cases (write_archive a (archive_path tenant_id ts) dir before).0) [
                    | inr (e, q3) ↦ absurd (ground arith)
                    | inl (u', q3) ↦
                        let is_path : archive_path tenant_id ts ≡ z = ground arith in
                        (
                          before,
                          record {
                            same_files = λ f. laws.makedirs_keeps (backup_path tenant_id ts) f d;
                            writes =
                                rw (← is_path) (
                                  write_archive-Written a (archive_path tenant_id ts) dir before
                                    q3);
                            ends = rw (← is_path) (ground arith);
                          },
                        )
                  ]
            ]
          ]
        ]

    -- A restore that returned has written what the archive holds over the files that were there.
    restore_tenant-file :
        (target : Uuid) (z n : Text) (d : D)
        → (restore_tenant a p settings target z d).0 ≡ ok tt
        → file (under (tenant_dir settings target) n) (restore_tenant a p settings target z d).1
          ≡ or_else (member z n d) (file (under (tenant_dir settings target) n) d)
    unfolding restore_tenant
    restore_tenant-file target z n d h =
        let dir = tenant_dir settings target in
        let made = (p.makedirs dir d).1 in
        elim (Result-cases (p.makedirs dir d).0) [
          | inr (e, q) ↦ absurd (ground arith)
          | inl (u, q) ↦ elim (Result-cases (a.open_read z made)) [
            | inr (e, q') ↦ absurd (ground arith)
            | inl (u', q') ↦ ground (
              arith,
              laws.extracts z dir n made,
              laws.makedirs_keeps dir (under dir n) d,
              laws.makedirs_members dir z n d,
            )
          ]
        ]

    -- Under the laws of tarfile, if a backup returned, of a directory that does not hold the
    -- archive itself, and the archive still holds the same, a restore that returns, at any later
    -- time and for any tenant, gives back every file of the state and of the workspace; a file of
    -- these that was not in the backup stays, as does every other file of the directory.
    pub restore_tenant-backup_tenant :
        (tenant_id target : Uuid) (now : Time) (d d' : D) (z : Text)
        → (backup_tenant a p settings tenant_id now d).0 ≡ ok z
        → ((m : Text) → under (tenant_dir settings tenant_id) m ≢ z)
        → ((n : Text) → member z n d' ≡ member z n (backup_tenant a p settings tenant_id now d).1)
        → (restore_tenant a p settings target z d').0 ≡ ok tt
        → (n m : Text) → starts_with (codes "state/") m ≡ false
        → starts_with (codes "workspace/") m ≡ false
        → (file
              (under (tenant_dir settings target) (codes "state/" ++ n))
              (restore_tenant a p settings target z d').1
            ≡ or_else
                (file (under (tenant_dir settings tenant_id) (codes "state/" ++ n)) d)
                (file (under (tenant_dir settings target) (codes "state/" ++ n)) d'))
          × (file
                (under (tenant_dir settings target) (codes "workspace/" ++ n))
                (restore_tenant a p settings target z d').1
              ≡ or_else
                  (file (under (tenant_dir settings tenant_id) (codes "workspace/" ++ n)) d)
                  (file (under (tenant_dir settings target) (codes "workspace/" ++ n)) d'))
          × (file (under (tenant_dir settings target) m) (restore_tenant a p settings target z d').1
              ≡ file (under (tenant_dir settings target) m) d')
    restore_tenant-backup_tenant tenant_id target now d d' z h apart same restored n m not_state
          not_workspace =
        let dir = tenant_dir settings tenant_id in
        let (before, b) = backup_tenant-Backed tenant_id now d z h in
        let held = λ (m : Text). same m ∙ ap (member z m) b.ends in
        let back = λ (m : Text). restore_tenant-file target z m d' restored in
        (
          back (under state n)
              ∙ ap (λ o. or_else o (file (under (tenant_dir settings target) (under state n)) d'))
                  (held (under state n)
                    ∙ write_archive-state z dir n before apart b.writes
                    ∙ ap (λ f. file f before) (under-under dir state n)
                    ∙ b.same_files (under dir (under state n))),
          back (under workspace n)
              ∙ ap
                  (λ o.
                    or_else o (file (under (tenant_dir settings target) (under workspace n)) d'))
                  (held (under workspace n)
                    ∙ write_archive-workspace z dir n before apart b.writes
                    ∙ ap (λ f. file f before) (under-under dir workspace n)
                    ∙ b.same_files (under dir (under workspace n))),
          back m
              ∙ ap (λ o. or_else o (file (under (tenant_dir settings target) m) d'))
                  (held m
                    ∙ write_archive-other z dir n before apart m not_state not_workspace b.writes),
        )
