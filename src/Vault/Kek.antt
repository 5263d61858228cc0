-- ===== src/Vault/Kek.antt =====
-- src/octw/vault/envelope.py: the master key, from the environment or from its file.
use octw.Prelude.{
  ℕ, ◌+◌, ◌*◌, ◌≡◌, Text, Option, none, some, [], ◌∷◌, nat_beq, length, arith, if◌then◌else◌,
}
use octw.Exec.{Result, ok, err, value_error, runtime_error, permission_error}
use octw.Config.{Settings}
use octw.Platform.{Platform}
use octw.Uuid.Parse.{is_space, digit_value}
use octw.Vault.Envelope.{key_size}

-- A byte of two hexadecimal digits, before the others.
abbrev pub byte_before : Option ℕ → Option ℕ → Option Text → Option Text
byte_before (some high) (some low) (some rest) = some ((16 * high + low) ∷ rest)
byte_before _ _ _ = none

-- `bytes.fromhex(s)`, which passes over spaces between the bytes; `none` is its `ValueError`.
unfoldable pub from_hex : Text → Option Text
from_hex [] = some []
from_hex (c ∷ []) = if is_space c then some [] else none
from_hex (c ∷ d ∷ s) =
    let spaced = from_hex (d ∷ s) in
    let rest = from_hex s in
    if is_space c then spaced else byte_before (digit_value c) (digit_value d) rest

abbrev pub check_size : Text → Result Text
check_size raw = if nat_beq (length raw) key_size then ok raw else err value_error

abbrev pub decoded : Option Text → Result Text
decoded none = err value_error
decoded (some raw) = check_size raw

-- `except PermissionError: raise RuntimeError`
abbrev pub checked : Result Text → Result Text
checked (ok raw) = check_size raw
checked (err permission_error) = err runtime_error
checked (err e) = err e

module _ {D : Type 0} (p : Platform D) (settings : Settings) where
  unfoldable pub kek_from_file : D → Result Text
  kek_from_file d =
      if p.path_exists settings.kek_path d
      then checked (p.read_bytes settings.kek_path d)
      else err runtime_error

  -- `_load_kek`, where `kek_env` is the variable `OCTW_KEK`.
  unfoldable pub load_kek : Option Text → D → Result Text
  load_kek none d = kek_from_file d
  load_kek (some []) d = kek_from_file d
  load_kek (some (c ∷ s)) d = decoded (from_hex (c ∷ s))

  check_size-length : (raw kek : Text) → check_size raw ≡ ok kek → length kek ≡ key_size
  check_size-length raw kek h = ground arith

  kek_from_file-length : (d : D) (kek : Text) → kek_from_file d ≡ ok kek → length kek ≡ key_size
  unfolding kek_from_file
  kek_from_file-length d kek h = ground (arith, λ (raw : Text). check_size-length raw kek)

  -- A master key that `_load_kek` returns, from the environment or from its file, has exactly the
  -- 32 bytes of an AES-256 key.
  pub load_kek-length :
      (kek_env : Option Text) (d : D) (kek : Text)
      → load_kek kek_env d ≡ ok kek
      → length kek ≡ key_size
  unfolding load_kek
  load_kek-length none d kek h = kek_from_file-length d kek h
  load_kek-length (some []) d kek h = kek_from_file-length d kek h
  load_kek-length (some (c ∷ s)) d kek h = ground (arith, λ (raw : Text). check_size-length raw kek)
