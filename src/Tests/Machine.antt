-- ===== src/Tests/Machine.antt =====
-- A machine that runs containers and nothing else, and a cipher that only marks its texts.
use octw.Prelude.{
  Bool-cases, inl, inr, ◌+◌, Text, codes, false, Option, none, some, List, [], ◌∷◌, ◌≡◌, refl, ap,
  ◌∙◌, arith, ◌==◌, nat_eq, text_eq, text_beq_iff, nat_beq_iff, not, if◌then◌else◌, find, keep,
  find-keep-none, length,
}
use octw.Exec.{Result, ok, err, not_found, os_error}
use octw.Platform.{Platform, Container, RunSpec, running, paused, exited}
use octw.Orchestrator.Laws.{DockerLaws}
use octw.Hibernation.Returns.{Benign, IsCalm}
use octw.Vault.Envelope.{Crypto, CryptoLaws}

abbrev pub Machine : Type 0
Machine = List Container

abbrev pub or_missing : Option Container → Result Container
or_missing none = err not_found
or_missing (some c) = ok c

abbrev pub get : Text → Machine → Result Container
get n d = or_missing (find (λ c. c.name == n) d)

-- The container with this name is replaced, or taken away.
abbrev pub drop : Text → Machine → Machine
drop n d = keep (λ c. not (c.name == n)) d

abbrev pub set : Container → Machine → Machine
set c d = c ∷ drop c.name d

abbrev pub fresh : RunSpec → Container
fresh spec = record { name = spec.name; id = codes "fresh"; status = running; networks = [] }

abbrev pub boxes : Platform Machine
boxes = record {
  containers_get = get;
  containers_run = λ spec d. (ok (fresh spec), set (fresh spec) d);
  container_pause = λ c d. (ok tt, set (record c { status = paused }) d);
  container_unpause = λ c d. (ok tt, set (record c { status = running }) d);
  container_stop = λ c timeout d. (ok tt, set (record c { status = exited }) d);
  container_remove = λ c force d. (ok tt, drop c.name d);
  container_wait = λ c timeout d. (ok (some 0), d);
  container_logs = λ c since tail d. ok (codes "log");
  networks_get = λ n d. err not_found;
  networks_create = λ spec d. (ok (record { name = spec.name; id = codes "net" }), d);
  network_remove = λ n d. (ok tt, d);
  network_connect = λ n c d. (ok tt, d);
  makedirs = λ t d. (ok tt, d);
  chmod = λ t mode d. (ok tt, d);
  chown = λ t uid gid d. (ok tt, d);
  getuid = λ d. 0;
  path_exists = λ t d. false;
  rmtree = λ t d. (ok tt, d);
  sudo_rm = λ t d. (ok tt, d);
  read_json = λ t d. err os_error;
  read_bytes = λ t d. err os_error;
  write_json = λ t v d. (ok tt, d);
}

pub get-name : (n : Text) (d : Machine) {c : Container} → get n d ≡ ok c → c.name ≡ n
unfolding find
get-name n [] h = cc
get-name n (x ∷ d) {c} h = ground (arith, text_beq_iff x.name n, get-name n d {c = c})

get-drop : (n : Text) (d : Machine) → get n (drop n d) ≡ err not_found
get-drop n d =
    ap or_missing
      (find-keep-none (λ c. not (c.name == n)) (λ c. c.name == n) d (λ x h. ground arith))

get-set : (c : Container) (d : Machine) → get c.name (set c d) ≡ ok c
unfolding find
get-set c d = ground (arith, text_beq_iff c.name c.name)

absent-find : (o : Option Container) → or_missing o ≡ err not_found → o ≡ none
absent-find none h = refl
absent-find (some c) h = absurd (ground arith)

absent-drop :
    (n m : Text) (d : Machine) → get n d ≡ err not_found → get n (drop m d) ≡ err not_found
unfolding find keep
absent-drop n m [] h = refl
absent-drop n m (c ∷ d) h = ground (arith, absent-drop n m d)

absent-set :
    (n : Text) (c : Container) (d : Machine)
    → (c.name == n) ≡ false
    → get n d ≡ err not_found
    → get n (set c d) ≡ err not_found
unfolding find
absent-set n c d e h = rw e (absent-drop n c.name d h)

present-other :
    (m n : Text) (c : Container) (d : Machine)
    → get m d ≡ ok c
    → get n d ≡ err not_found
    → (c.name == n) ≡ false
present-other m n c d q h = elim (Bool-cases (c.name == n)) [
  | inl e ↦ absurd (ground (arith, text_beq_iff c.name n, get-name m d {c = c} q))
  | inr e ↦ e
]

run_result :
    (c c' : Container)
    → ok c ≡ ok c'
    → c.status ≡ running
    → ok c ≡ ok (record c' { status = running })
run_result c c' h s = ground arith

pub boxes-DockerLaws : DockerLaws boxes
boxes-DockerLaws = record {
  gets_name = λ h. get-name _ _ h;
  removes = λ c f d h. get-drop c.name d;
  remove_misses = λ c f d h. get-drop c.name d;
  stop_misses = λ c k d h. cc;
  pauses = λ c d h. get-set (record c { status = paused }) d;
  pause_misses = λ c d h. cc;
  unpauses = λ c d h. get-set (record c { status = running }) d;
  stop_absent = λ {m} {c} {d} n k q h.
      absent-set n (record c { status = exited }) d (present-other m n c d q h) h;
  remove_absent = λ n c f d h. absent-drop n c.name d h;
  pause_absent = λ {m} {c} {d} n q h.
      absent-set n (record c { status = paused }) d (present-other m n c d q h) h;
  unpause_finds = λ q h. cc;
  runs = λ spec d {c} h. get-set (fresh spec) d ∙ run_result (fresh spec) c h refl;
  network_remove_same = λ n d m. refl;
  rmtree_same = λ t d m. refl;
  sudo_rm_same = λ t d m. refl;
  write_json_same = λ t v d m. refl;
}

or_missing-Benign : (o : Option Container) → Benign (or_missing o)
or_missing-Benign none = tt
or_missing-Benign (some c) = tt

pub boxes-IsCalm : IsCalm boxes
boxes-IsCalm = record {
  gets = λ n d. or_missing-Benign (find (λ c. c.name == n) d);
  stops = λ c k d. tt;
  removes = λ c f d. tt;
  pauses = λ c d. tt;
}

abbrev unmark : Text → Text → Text → Option Text
unmark key nonce [] = none
unmark key nonce (tag ∷ plaintext) = if tag == length key then some plaintext else none

-- A text is marked with the length of the key.
abbrev pub marks : Crypto
marks = record {
  encrypt = λ key nonce plaintext. length key ∷ plaintext;
  decrypt = unmark;
  urandom = λ draw size. draw ∷ size ∷ [];
  uuid4 = λ draw. 1000 + draw;
}

pub marks-CryptoLaws : CryptoLaws marks
marks-CryptoLaws = record {
  decrypt-encrypt = λ key nonce plaintext. ground (arith, nat_beq_iff (length key) (length key));
}
