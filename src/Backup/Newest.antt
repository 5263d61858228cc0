-- ===== src/Backup/Newest.antt =====
-- `list_backups` of src/octw/orchestrator/backup.py against the times of the backups.
use octw.Prelude.{
  codes, Text, Bool, List, ◌++◌, map, ◌≡◌, inl, inr, refl, subst, ◌∙◌, true, All, leb, text_leb,
  text_leb-append, sorted_reverse, sorted_reverse-map, sorted_reverse-IsDescending,
  count-sorted_reverse, IsDescending, count, arith, pair_eq, text_eq, nat_eq,
}
use mathlib.Core.List.{append_assoc}
use octw.Exec.{Result-cases, ok}
use octw.Config.{Settings}
use octw.Clock.{stamp}
use octw.Clock.Order.{text_leb-stamp}
use octw.Models.Tenant.{Uuid, Time}
use octw.Platform.{Platform}
use octw.Backup.Archives.{Archives}
use octw.Backup.Service.{
  tenant_backups, backup_path, archive_path, archive_name, list_backups, backup_tenant,
}

-- What follows the stamp in the path of an archive.
abbrev rest : Text
rest = codes "/" ++ archive_name

module _ {D : Type 0} (a : Archives D) (p : Platform D) (settings : Settings)
    (tenant_id : Uuid) where
  -- A backup of the tenant at this time returned this path, on some machine.
  abbrev pub Returned : Time × Text → Type 0
  Returned (now, path) = (d : D) × ((backup_tenant a p settings tenant_id now d).0 ≡ ok path)

  backup_tenant-path :
      (now : Time) (d : D) (path : Text)
      → (backup_tenant a p settings tenant_id now d).0 ≡ ok path
      → (ts : Text) × (stamp now ≡ ok ts) × (archive_path tenant_id ts ≡ path)
  unfolding backup_tenant
  backup_tenant-path now d path h = elim (Result-cases (stamp now)) [
    | inl (ts, q) ↦ (ts, q, ground arith)
    | inr (e, q) ↦ absurd (ground arith)
  ]

  archive_path_lem :
      (ts : Text)
      → archive_path tenant_id ts ≡ tenant_backups tenant_id ++ (codes "/" ++ (ts ++ rest))
  unfolding archive_path backup_path
  archive_path_lem ts = append_assoc (tenant_backups tenant_id) (codes "/" ++ ts) rest

  text_leb-archive_path :
      (s t : Text)
      → text_leb (archive_path tenant_id s) (archive_path tenant_id t)
        ≡ text_leb (s ++ rest) (t ++ rest)
  text_leb-archive_path s t =
      rw (archive_path_lem s, archive_path_lem t)
        (text_leb-append (tenant_backups tenant_id) (codes "/" ++ (s ++ rest))
            (codes "/" ++ (t ++ rest))
          ∙ text_leb-append (codes "/") (s ++ rest) (t ++ rest))

  abbrev by_time : Time × Text → Time × Text → Bool
  by_time (s, path) (t, path') = leb s t

  text_leb-Returned : (b c : Time × Text) → Returned b → Returned c → text_leb b.1 c.1 ≡ by_time b c
  text_leb-Returned (s, path) (t, path') (d, h) (d', k) =
      let (a, stamp_a, is_path) = backup_tenant-path s d path h in
      let (b, stamp_b, is_path') = backup_tenant-path t d' path' k in
      rw (← is_path, ← is_path')
        (text_leb-archive_path a b ∙ text_leb-stamp s t a b rest stamp_a stamp_b)

  -- Whatever the order in which the file system gives the archives of backups of a tenant that
  -- returned, `list_backups` gives each of them as often, those of later times first.
  pub list_backups-newest :
      (backups : List (Time × Text)) (d : D)
      → All Returned backups
      → p.path_exists (tenant_backups tenant_id) d ≡ true
      → a.rglob (tenant_backups tenant_id) archive_name d ≡ map (λ b. b.1) backups
      → (listed : List (Time × Text)) × (list_backups a p tenant_id d ≡ map (λ b. b.1) listed)
        × IsDescending (map (λ b. b.0) listed)
        × ((b : Time × Text) → count b listed ≡ count b backups)
  unfolding list_backups
  list_backups-newest backups d returned there found = (
    sorted_reverse by_time backups,
    rw (there, found)
        (sorted_reverse-map by_time text_leb (λ b. b.1) Returned text_leb-Returned backups
          returned),
    subst IsDescending
        (sorted_reverse-map by_time leb (λ b. b.0) Returned (λ b c h k. refl) backups returned)
        (sorted_reverse-IsDescending (map (λ b. b.0) backups)),
    λ b. count-sorted_reverse by_time b backups,
  )
