-- ===== src/Tests/Disk.antt =====
-- A machine with files and archives, and no containers.
use octw.Prelude.{
  Text, true, false, Option, none, some, List, [], ◌∷◌, ◌≡◌, ◌==◌, text_eq, text_beq_iff, nat_beq,
  starts_with, if◌then◌else◌, arith, refl,
}
use octw.Exec.{ok, err, not_found, os_error}
use octw.Platform.{Platform}
use octw.Backup.Archives.{Archives, ArchiveLaws, or_else, under}

pub record Disk : Type 0 where
  pub file : Text → Option Text
  pub member : Text → Text → Option Text
  pub found : List Text

-- What follows a front, if the text has this front.
abbrev behind : Text → Text → Option Text
behind [] s = some s
behind (c ∷ p) [] = none
behind (c ∷ p) (x ∷ s) = if nat_beq c x then behind p s else none

-- The text for a name over the texts that were there.
abbrev over : (Text → Option Text) → Option Text → Option Text → Option Text
over f none old = old
over f (some n) old = or_else (f n) old

abbrev pub disk : Platform Disk
disk = record {
  containers_get = λ n d. err not_found;
  containers_run = λ spec d. (err os_error, d);
  container_pause = λ c d. (err os_error, d);
  container_unpause = λ c d. (err os_error, d);
  container_stop = λ c timeout d. (err os_error, d);
  container_remove = λ c force d. (err os_error, d);
  container_wait = λ c timeout d. (err os_error, d);
  container_logs = λ c since tail d. err os_error;
  networks_get = λ n d. err not_found;
  networks_create = λ spec d. (err os_error, d);
  network_remove = λ n d. (err os_error, d);
  network_connect = λ n c d. (err os_error, d);
  makedirs = λ t d. (ok tt, d);
  chmod = λ t mode d. (ok tt, d);
  chown = λ t uid gid d. (ok tt, d);
  getuid = λ d. 0;
  path_exists = λ t d. true;
  rmtree = λ t d. (ok tt, d);
  sudo_rm = λ t d. (ok tt, d);
  read_json = λ t d. err os_error;
  read_bytes = λ t d. err os_error;
  write_json = λ t v d. (ok tt, d);
}

abbrev pub tapes : Archives Disk
tapes = record {
  create = λ z d. (ok tt, record d { member = λ y m. if y == z then none else d.member y m });
  add = λ z source name d. (
    ok tt,
    record d {
      member = λ y m.
          if y == z
          then over (λ n. d.file (under source n)) (behind (under name []) m) (d.member y m)
          else d.member y m;
    },
  );
  close = λ z finished d. (ok tt, d);
  open_read = λ z d. ok tt;
  extract_all = λ z directory d. (
    ok tt,
    record d { file = λ f. over (d.member z) (behind (under directory []) f) (d.file f) },
  );
  rglob = λ directory name d. d.found;
  run = λ command d. (ok tt, d);
}

behind-under : (p n : Text) → behind (under p []) (under p n) ≡ some n
behind-under [] n = ground arith
behind-under (c ∷ p) n = ground (arith, behind-under p n)

behind-none : (p m : Text) → starts_with p m ≡ false → behind p m ≡ none
unfolding starts_with
behind-none [] m h = cc
behind-none (c ∷ p) [] h = ground arith
behind-none (c ∷ p) (x ∷ m) h = ground (arith, behind-none p m)

same : (z : Text) → (z == z) ≡ true
same z = ground (arith, text_beq_iff z z)

pub tapes-ArchiveLaws : ArchiveLaws disk tapes (λ f d. d.file f) (λ z n d. d.member z n)
tapes-ArchiveLaws = record {
  makedirs_keeps = λ t f d. refl;
  makedirs_members = λ t z n d. refl;
  creates = λ z n d h. rw (same z) refl;
  create_keeps = λ z f d h. refl;
  adds = λ z source name n d h k. rw (same z, behind-under name n) refl;
  add_members = λ z source name m d h k. rw (same z, behind-none (under name []) m k) refl;
  add_keeps = λ z source name f d h. refl;
  closes = λ z n d h. refl;
  extracts = λ z directory n d h. rw (behind-under directory n) refl;
}
