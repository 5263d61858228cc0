-- ===== src/Backup/Service.antt =====
-- src/octw/orchestrator/backup.py
use octw.Prelude.{
  Text, codes, true, false, List, [], ◌∷◌, not, text_leb, sorted_reverse, if◌then◌else◌,
}
use octw.Exec.{
  Result, ok, err, ⊤, Op, pure, raise, lift, gets, query, raise_if, ◌>>=◌, ◌>>◌, file_not_found,
}
use octw.Config.{Settings}
use octw.Clock.{stamp}
use octw.Models.Tenant.{Uuid, Time}
use octw.Platform.{Platform}
use octw.Uuid.{uuid_text}
use octw.Uuid.Parse.{removed}
use octw.Orchestrator.Names.{tenant_dir}
use octw.Backup.Archives.{Archives, under}

abbrev pub backup_dir : Text
backup_dir = codes "/var/lib/octw/backups"

abbrev pub archive_name : Text
archive_name = codes "tenant_data.tar.gz"

unfoldable pub tenant_backups : Uuid → Text
tenant_backups tenant_id = under backup_dir (uuid_text tenant_id)

-- `BACKUP_DIR / str(tenant_id) / ts`
unfoldable pub backup_path : Uuid → Text → Text
unfolding tenant_backups
backup_path tenant_id ts = under (tenant_backups tenant_id) ts

unfoldable pub archive_path : Uuid → Text → Text
unfolding backup_path
archive_path tenant_id ts = under (backup_path tenant_id ts) archive_name

module _ {D : Type 0} (a : Archives D) where
  -- The end of the `with` block.
  abbrev pub leave : Text → Result ⊤ → Op D ⊤
  leave archive (ok u) = a.close archive true
  leave archive (err e) = do a.close archive false; raise e

  -- `with tarfile.open(archive, "w:gz") as tar:`
  unfoldable pub with_archive : Text → Op D ⊤ → Op D ⊤
  with_archive archive body = a.create archive >> (λ d. let (r, d') = body d in leave archive r d')

  unfoldable pub write_archive : Text → Text → Op D ⊤
  unfolding with_archive
  write_archive archive directory = with_archive archive (do
    a.add archive (under directory (codes "state")) (codes "state")
    a.add archive (under directory (codes "workspace")) (codes "workspace"))

  module _ (p : Platform D) where
    -- `BackupService()`
    unfoldable pub init : Op D ⊤
    init = p.makedirs backup_dir

    unfoldable pub list_backups : Uuid → D → List Text
    list_backups tenant_id d =
        if p.path_exists (tenant_backups tenant_id) d
        then sorted_reverse text_leb (a.rglob (tenant_backups tenant_id) archive_name d)
        else []

    module _ (settings : Settings) where
      unfoldable pub backup_tenant : Uuid → Time → Op D Text
      unfolding write_archive
      backup_tenant tenant_id now = do
        there ← gets (p.path_exists (tenant_dir settings tenant_id))
        raise_if (not there) file_not_found
        ts ← lift (stamp now)
        p.makedirs (backup_path tenant_id ts)
        write_archive (archive_path tenant_id ts) (tenant_dir settings tenant_id)
        pure (archive_path tenant_id ts)

      unfoldable pub restore_tenant : Uuid → Text → Op D ⊤
      restore_tenant tenant_id archive = do
        p.makedirs (tenant_dir settings tenant_id)
        query (a.open_read archive)
        a.extract_all archive (tenant_dir settings tenant_id)

  -- The second `replace` puts "postgresql" in its own place.
  unfoldable pub backup_database : Settings → Text → Op D ⊤
  backup_database settings output = a.run (
      codes "pg_dump"
      ∷ codes "--format=custom"
      ∷ codes "--file"
      ∷ output
      ∷ removed (codes "+asyncpg") settings.db_url
      ∷ [])
