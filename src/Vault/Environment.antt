-- ===== src/Vault/Environment.antt =====
-- `get_decrypted_secrets` of src/octw/vault/service.py: the variables that a container is given.
use octw.Prelude.{
  Text, true, false, Option, none, some, List, [], ◌∷◌, ◌≡◌, refl, ◌==◌, nat_eq, arith, nat_beq_iff,
  map, has, is_some, All, All-keep_where, find, keep, or_text, Dict, insert, update, All-find,
  Option-cases, sym, ap, ◌∙◌, inl, inr,
}
use octw.Exec.{Result, ok, continue}
use octw.Models.Tenant.{Uuid}
use octw.Db.{Db, Session, SecretRow, TenantDekRow, dek_tenant_of, tenant_exists, secrets_of}
use octw.Vault.Envelope.{Crypto, CryptoLaws, or_invalid_tag}
use octw.Vault.Service.{ensure_tenant_dek, decrypt_rows, get_decrypted_secrets}
use octw.Vault.Sound.{
  dek_for, reveal, IsSound, Ensured, old, refused, new, ensure-Ensured, Ensured-secrets,
  Ensured-returns, Ensured-IsSound, unwrap,
}

module _ (c : Crypto) (kek : Text) where
  abbrev add_entry : Text → Option Text → Dict Text → Dict Text
  add_entry k none rest = rest
  add_entry k (some v) rest = (k, v) ∷ rest

  -- What the rows say: the name of a variable, which is the target if one is given and not empty,
  -- and the text of the secret.
  abbrev pub entries : Db → List SecretRow → Dict Text
  entries db [] = []
  entries db (r ∷ rows) =
      add_entry (or_text r.target_env_var r.name) (reveal c kek db r) (entries db rows)

  decrypt_rows-entries :
      (db : Db) (dek : Text) (rows : List SecretRow) (d : Dict Text)
      → All
          (λ r.
            (reveal c kek db r ≡ c.decrypt dek r.nonce r.ciphertext)
            × (is_some (reveal c kek db r) ≡ true))
          rows
      → decrypt_rows c kek dek rows d ≡ ok (update d (entries db rows))
  unfolding decrypt_rows update
  decrypt_rows-entries db dek [] d h = refl
  decrypt_rows-entries db dek (r ∷ rows) d h = elim (Option-cases (reveal c kek db r)) [
    | inl e ↦ ground arith
    | inr (v, e) ↦
        let q : c.decrypt dek r.nonce r.ciphertext ≡ some v = sym h.0.0 ∙ e in
        rw (q, e, decrypt_rows)
          (decrypt_rows-entries db dek rows (insert (or_text r.target_env_var r.name) v d) h.1)
  ]

  has-find :
      (t : Uuid) (ks : List TenantDekRow)
      → find (λ r. r.tenant_id == t) ks ≡ none
      → has t (map dek_tenant_of ks) ≡ false
  unfolding has find
  has-find t [] h = refl
  has-find t (k ∷ ks) h =
      ground (arith, has-find t ks, nat_beq_iff t k.tenant_id, nat_beq_iff k.tenant_id t)

  opens-total : (o : Option Text) → is_some o ≡ true → (dek : Text) × (or_invalid_tag c o ≡ ok dek)
  opens-total none h = absurd (ground arith)
  opens-total (some dek) h = (dek, refl)

  module _ {t : Uuid} {s : Session} where
    Ensured-total :
        {r : Result Text × Session}
        → Ensured c kek t s r
        → IsSound c kek s.db
        → tenant_exists t s.db ≡ true
        → (dek : Text) × (r.0 ≡ ok dek)
    Ensured-total (old k e) v x =
        opens-total (unwrap c kek k) (All-find _ _ s.db.deks v.deks_open e)
    Ensured-total (refused e f) v x = absurd (ground (arith, has-find t s.db.deks e))
    Ensured-total (new e f) v x = (_, refl)

  opened :
      (t : Uuid) (db : Db) (dek : Text) (r : SecretRow)
      → dek_for c kek t db ≡ some dek
      → r.tenant_id ≡ t
      → reveal c kek db r ≡ c.decrypt dek r.nonce r.ciphertext
  opened t db dek r key e = rw (e, key)

  abbrev answer : Db → Uuid → List SecretRow → Result (Dict Text)
  answer db t rows = ok (update [] (entries db (keep (λ r. r.tenant_id == t) rows)))

  own-rows :
      (t : Uuid) (db : Db) (dek : Text)
      → dek_for c kek t db ≡ some dek
      → IsSound c kek db
      → All
          (λ r.
            (reveal c kek db r ≡ c.decrypt dek r.nonce r.ciphertext)
            × (is_some (reveal c kek db r) ≡ true))
          (secrets_of t db)
  unfolding secrets_of
  own-rows t db dek key v =
      All-keep_where _ _ (λ r. r.tenant_id == t) db.secrets
        (λ r e h. (opened t db dek r key ((nat_beq_iff r.tenant_id t).0 e), h)) v.secrets_open

  -- For an existing tenant of a sound vault, `get_decrypted_secrets` returns exactly the variables
  -- and plaintexts of the tenant's own secrets, a later one over an earlier one.
  pub get_decrypted_secrets-entries :
      CryptoLaws c
      → (t : Uuid) (s : Session) → IsSound c kek s.db
      → tenant_exists t s.db ≡ true
      → let (r, s') = get_decrypted_secrets c kek t s in
        r ≡ ok (update [] (entries s'.db (secrets_of t s.db)))
  unfolding get_decrypted_secrets secrets_of
  get_decrypted_secrets-entries laws t s v x =
      let e = ensure-Ensured c kek t s in
      let (dek, q) = Ensured-total e v x in
      let s' = (ensure_tenant_dek c kek t s).1 in
      rw (q, continue)
        (decrypt_rows-entries s'.db dek (secrets_of t s'.db) []
            (own-rows t s'.db dek (Ensured-returns c kek laws e q) (Ensured-IsSound c kek laws e v))
          ∙ ap (answer s'.db t) (Ensured-secrets c kek e))
