-- ===== src/Vault/Envelope.antt =====
-- src/octw/vault/envelope.py: a master key (KEK) wraps a key for each tenant (DEK), which wraps the
-- secrets. AES-GCM and the source of random numbers are parameters.
use octw.Prelude.{ℕ, ◌+◌, Text, Option, none, some, ◌≡◌}
use octw.Exec.{Result, ok, err, invalid_tag, Op, pure, ◌>>=◌}
use octw.Models.Tenant.{Uuid}
use octw.Db.{Session}

-- `AESGCM(key).encrypt(nonce, plaintext, None)` and its inverse (`none` is `InvalidTag`), and the
-- n-th draw from `os.urandom` and from `uuid.uuid4`.
pub record Crypto : Type 0 where
  pub encrypt : Text → Text → Text → Text
  pub decrypt : Text → Text → Text → Option Text
  pub urandom : ℕ → ℕ → Text
  pub uuid4 : ℕ → Uuid

-- What is documented of AES-GCM: decryption under the same key and nonce gives the plaintext back.
pub record CryptoLaws (c : Crypto) : Type 0 where
  pub decrypt-encrypt :
      (key nonce plaintext : Text)
      → c.decrypt key nonce (c.encrypt key nonce plaintext) ≡ some plaintext

abbrev pub nonce_size : ℕ
nonce_size = 12

abbrev pub key_size : ℕ
key_size = 32

module _ (c : Crypto) where
  -- `os.urandom(size)`
  abbrev pub urandom : ℕ → Op Session Text
  urandom size s = (ok (c.urandom s.draws size), record s { draws = s.draws + 1 })

  -- `uuid.uuid4()`
  abbrev pub uuid4 : Op Session Uuid
  uuid4 s = (ok (c.uuid4 s.draws), record s { draws = s.draws + 1 })

  abbrev pub or_invalid_tag : Option Text → Result Text
  or_invalid_tag none = err invalid_tag
  or_invalid_tag (some plaintext) = ok plaintext

  unfoldable pub generate_dek : Op Session Text
  generate_dek = urandom key_size

  unfoldable pub encrypt_value : Text → Text → Op Session (Text × Text)
  encrypt_value dek plaintext = do
    nonce ← urandom nonce_size
    pure (c.encrypt dek nonce plaintext, nonce)

  unfoldable pub decrypt_value : Text → Text → Text → Result Text
  decrypt_value dek ciphertext nonce = or_invalid_tag (c.decrypt dek nonce ciphertext)

  module _ (kek : Text) where
    unfoldable pub encrypt_dek : Text → Op Session (Text × Text)
    encrypt_dek dek = do nonce ← urandom nonce_size; pure (c.encrypt kek nonce dek, nonce)

    unfoldable pub decrypt_dek : Text → Text → Result Text
    decrypt_dek encrypted_dek nonce = or_invalid_tag (c.decrypt kek nonce encrypted_dek)
