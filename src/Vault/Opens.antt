-- ===== src/Vault/Opens.antt =====
-- The operations of src/octw/vault/service.py leave a vault in which every key and every secret
-- opens.
use octw.Prelude.{
  ◌+◌, Text, true, Option, none, some, ◌≡◌, nat_eq, text_eq, pair_eq, nat_beq_iff, arith, is_some,
  All-append, All-update, Bool-cases, inl, inr, has, map, not, ◌||◌,
}
use octw.Exec.{Result-cases, continue}
use octw.Models.Tenant.{Uuid}
use octw.Models.Secret.{SecretType}
use octw.Db.{Db, Session, SecretRow, add_secret, update_secret, uq_tenant_secret, tenant_exists}
use octw.Vault.Envelope.{Crypto, CryptoLaws, nonce_size}
use octw.Vault.Service.{
  ensure_tenant_dek, put_secret, seal_and_put, store_secret, overwrite, new_secret,
  get_decrypted_secrets,
}
use octw.Vault.Sound.{dek_for, reveal, IsSound, ensure-Ensured, Ensured-returns, Ensured-IsSound}

module _ (c : Crypto) (kek : Text) where
  -- A secret that is added or changed opens if the new one does.
  add-IsSound :
      (row : SecretRow) (db : Db)
      → is_some (reveal c kek db row) ≡ true
      → IsSound c kek db
      → IsSound c kek (add_secret row db).1
  unfolding add_secret
  add-IsSound row db o v =
      elim (Bool-cases (
        has (uq_tenant_secret row) (map uq_tenant_secret db.secrets)
        || not (tenant_exists row.tenant_id db))) [
          | inl e ↦ rw (e, add_secret) v
          | inr e ↦
              rw (e, add_secret)
                (record {
                  deks_open = v.deks_open;
                  secrets_open = All-append _ db.secrets row v.secrets_open o;
                })
        ]

  update-IsSound :
      (t : Uuid) (n : Text) (f : SecretRow → SecretRow) (db : Db)
      → ((r : SecretRow) → r.tenant_id ≡ t → is_some (reveal c kek db (f r)) ≡ true)
      → IsSound c kek db
      → IsSound c kek (update_secret t n f db)
  unfolding update_secret
  update-IsSound t n f db o v = record {
    deks_open = v.deks_open;
    secrets_open =
        All-update _ _ f db.secrets (λ r e _. o r (ground (arith, nat_beq_iff r.tenant_id t)))
          v.secrets_open;
  }

  module _ (laws : CryptoLaws c) (t : Uuid) (n plaintext : Text) (ty : SecretType)
      (ev : Option Text) where
    put-IsSound :
        (nonce dek : Text) (o : Option SecretRow) (s : Session)
        → dek_for c kek t s.db ≡ some dek
        → IsSound c kek s.db
        → IsSound c kek (put_secret c kek t n (c.encrypt dek nonce plaintext) nonce ty ev o s).1.db
    unfolding put_secret
    put-IsSound nonce dek none s key v =
        add-IsSound
          (new_secret (c.uuid4 s.draws) s.now t n (c.encrypt dek nonce plaintext) nonce ty ev) s.db
          (rw (key, laws.decrypt-encrypt dek nonce plaintext)) v
    put-IsSound nonce dek (some r) s key v =
        update-IsSound t n (overwrite s.now (c.encrypt dek nonce plaintext) nonce ty ev) s.db
          (λ x e. rw (e, key, laws.decrypt-encrypt dek nonce plaintext)) v

    seal-put :
        (P : Db → Type 0) (dek : Text) (s : Session)
        → ((o : Option SecretRow)
            → P
                (put_secret c kek t n
                  (c.encrypt dek (c.urandom s.draws nonce_size) plaintext)
                  (c.urandom s.draws nonce_size)
                  ty
                  ev
                  o
                  (record s { draws = s.draws + 1 })).1.db)
        → P s.db
        → P (seal_and_put c kek t n plaintext ty ev dek s).1.db
    unfolding seal_and_put
    seal-put P dek s put v = grind arith

    seal-IsSound :
        (dek : Text) (s : Session)
        → dek_for c kek t s.db ≡ some dek
        → IsSound c kek s.db
        → IsSound c kek (seal_and_put c kek t n plaintext ty ev dek s).1.db
    seal-IsSound dek s key v =
        seal-put (IsSound c kek) dek s
          (λ o.
            put-IsSound (c.urandom s.draws nonce_size) dek o (record s { draws = s.draws + 1 }) key
              v)
          v

    -- `store_secret`, whatever it ends with, keeps every key and every secret decryptable.
    pub store_secret-IsSound :
        (s : Session)
        → IsSound c kek s.db
        → IsSound c kek (store_secret c kek t n plaintext ty ev s).1.db
    unfolding store_secret
    store_secret-IsSound s v =
        let e = ensure-Ensured c kek t s in
        elim (Result-cases (ensure_tenant_dek c kek t s).0) [
          | inl (dek, r) ↦
              rw (r, continue)
                (seal-IsSound dek _ (Ensured-returns c kek laws e r)
                  (Ensured-IsSound c kek laws e v))
          | inr (x, r) ↦ rw (r, continue) (Ensured-IsSound c kek laws e v)
        ]

  pub get_decrypted_secrets-IsSound :
      (laws : CryptoLaws c) (t : Uuid) (s : Session)
      → IsSound c kek s.db
      → IsSound c kek (get_decrypted_secrets c kek t s).1.db
  unfolding get_decrypted_secrets
  get_decrypted_secrets-IsSound laws t s v =
      let e = ensure-Ensured c kek t s in
      elim (Result-cases (ensure_tenant_dek c kek t s).0) [
        | inl (dek, r) ↦ rw (r, continue) (Ensured-IsSound c kek laws e v)
        | inr (x, r) ↦ rw (r, continue) (Ensured-IsSound c kek laws e v)
      ]
