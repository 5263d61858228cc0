-- ===== src/Vault/Store.antt =====
-- `store_secret` and `delete_secret` of src/octw/vault/service.py as operations on the vault's map.
use octw.Prelude.{
  not-true, ◌+◌, Text, Bool, true, false, Option, none, some, ◌≡◌, refl, ap, ◌∙◌, ◌==◌, nat_eq,
  text_eq, nat_beq_iff, text_beq_iff, ◌&&◌, arith, is_some, find, keep, if◌then◌else◌, find-append,
  find-update_where, find-passes, find-keep, find-keep-none, Bool-cases, Option-cases, inl, inr,
  not,
}
use octw.Exec.{continue, Result-cases, ok, Op}
use octw.Models.Tenant.{Uuid}
use octw.Models.Secret.{SecretType, SecretMetadata}
use octw.Db.{Session, SecretRow, scalar_one_or_none, found-one, secrets_named}
use octw.Vault.Envelope.{nonce_size, Crypto, CryptoLaws}
use octw.Vault.Service.{
  put_secret, seal_and_put, store_secret, ensure_tenant_dek, overwrite, delete_secret,
  delete_found_secret, new_secret,
}
use octw.Vault.Sound.{dek_for, view, IsSound, ensure-Ensured, Ensured-returns, Ensured-view}

abbrev named : Uuid → Text → SecretRow → Bool
named t n r = r.tenant_id == t && r.name == n

-- Two pairs of a tenant and a name that differ pass no common row.
named-other :
    (t u : Uuid) (n m : Text) (r : SecretRow)
    → (t == u && n == m) ≡ false
    → named u m r ≡ true
    → named t n r ≡ false
named-other t u n m r d h = ground (
  arith,
  nat_beq_iff r.tenant_id u,
  nat_beq_iff r.tenant_id t,
  nat_beq_iff t u,
  text_beq_iff r.name m,
  text_beq_iff r.name n,
  text_beq_iff n m,
)

same-both : (t u : Uuid) (n m : Text) → (t == u && n == m) ≡ true → (t ≡ u) × (n ≡ m)
same-both t u n m h = ground (arith, nat_beq_iff t u, text_beq_iff n m)

named_self : (t : Uuid) (n : Text) → (t == t && n == n) ≡ true
named_self t n = ground (arith, nat_beq_iff t t, text_beq_iff n n)

module _ (c : Crypto) (kek : Text) (laws : CryptoLaws c) (t : Uuid) (n plaintext nonce : Text)
    (ty : SecretType) (ev : Option Text) (dek : Text) where
  put : Option SecretRow → Op Session Unit
  put = put_secret c kek t n (c.encrypt dek nonce plaintext) nonce ty ev

  module _ (s : Session) (key : dek_for c kek t s.db ≡ some dek) where
    put-view_self :
        (o : Option SecretRow)
        → find (named t n) s.db.secrets ≡ o
        → (put o s).0 ≡ ok tt
        → view c kek t n (put o s).1.db ≡ some plaintext
    unfolding put put_secret
    put-view_self none f h = ground (
      arith,
      f,
      find-append (named t n) s.db.secrets
          (new_secret (c.uuid4 s.draws) s.now t n (c.encrypt dek nonce plaintext) nonce ty ev),
      nat_beq_iff t t,
      text_beq_iff n n,
      laws.decrypt-encrypt dek nonce plaintext,
    )
    put-view_self (some r) f h = ground (
      arith,
      find-update_where (named t n) (named t n)
          (overwrite s.now (c.encrypt dek nonce plaintext) nonce ty ev) s.db.secrets (λ x. refl),
      find-passes (named t n) s.db.secrets f,
      nat_beq_iff r.tenant_id t,
      nat_beq_iff t t,
      text_beq_iff n n,
      laws.decrypt-encrypt dek nonce plaintext,
    )

    put-view_other :
        (u : Uuid) (m : Text) (o : Option SecretRow)
        → (t == u && n == m) ≡ false
        → view c kek u m (put o s).1.db ≡ view c kek u m s.db
    unfolding put put_secret
    put-view_other u m none d = ground (
      arith,
      d,
      find-append (named u m) s.db.secrets
          (new_secret (c.uuid4 s.draws) s.now t n (c.encrypt dek nonce plaintext) nonce ty ev),
    )
    put-view_other u m (some r) d = elim (Option-cases (find (named u m) s.db.secrets)) [
      | inl e ↦ rw (
        find-update_where (named t n) (named u m)
            (overwrite s.now (c.encrypt dek nonce plaintext) nonce ty ev) s.db.secrets (λ x. refl),
        e,
      )
      | inr (x, e) ↦ rw (
        find-update_where (named t n) (named u m)
            (overwrite s.now (c.encrypt dek nonce plaintext) nonce ty ev) s.db.secrets (λ x. refl),
        e,
        named-other t u n m x d (find-passes (named u m) s.db.secrets e),
      )
    ]

module _ (c : Crypto) (kek : Text) (laws : CryptoLaws c) (t : Uuid) (n plaintext : Text)
    (ty : SecretType) (ev : Option Text) where
  -- The map after a store.
  abbrev stored : Uuid → Text → Option Text → Option Text
  stored u m before = if t == u && n == m then some plaintext else before

  put-view :
      (nonce dek : Text) (s : Session) (o : Option SecretRow) (u : Uuid) (m : Text)
      → dek_for c kek t s.db ≡ some dek
      → find (named t n) s.db.secrets ≡ o
      → (put_secret c kek t n (c.encrypt dek nonce plaintext) nonce ty ev o s).0 ≡ ok tt
      → view c kek u m (put_secret c kek t n (c.encrypt dek nonce plaintext) nonce ty ev o s).1.db
        ≡ stored u m (view c kek u m s.db)
  unfolding put
  put-view nonce dek s o u m key f h = elim (Bool-cases (t == u && n == m)) [
    | inl same ↦
        let (et, en) = same-both t u n m same in
        rw (same, ← et, ← en) (put-view_self c kek laws t n plaintext nonce ty ev dek s key o f h)
    | inr other ↦
        rw other (put-view_other c kek laws t n plaintext nonce ty ev dek s key u m o other)
  ]

  seal-view :
      (dek : Text) (s : Session) {meta : SecretMetadata} (u : Uuid) (m : Text)
      → dek_for c kek t s.db ≡ some dek
      → (seal_and_put c kek t n plaintext ty ev dek s).0 ≡ ok meta
      → view c kek u m (seal_and_put c kek t n plaintext ty ev dek s).1.db
        ≡ stored u m (view c kek u m s.db)
  unfolding seal_and_put
  seal-view dek s u m key h =
      elim (Result-cases (scalar_one_or_none (keep (named t n) s.db.secrets))) [
        | inl (o, e) ↦ ground (
          arith,
          e,
          put-view (c.urandom s.draws nonce_size) dek (record s { draws = s.draws + 1 }) o u m key
              (found-one (named t n) s.db.secrets o e),
        )
        | inr (x, e) ↦ ground (arith, e)
      ]

  -- In a sound vault, a secret that `store_secret` reports as stored is read back as its
  -- plaintext, and every other secret of every tenant reads as before.
  pub store_secret-view :
      (s : Session) {meta : SecretMetadata} (u : Uuid) (m : Text)
      → IsSound c kek s.db
      → (store_secret c kek t n plaintext ty ev s).0 ≡ ok meta
      → view c kek u m (store_secret c kek t n plaintext ty ev s).1.db
        ≡ (if t == u && n == m then some plaintext else view c kek u m s.db)
  unfolding store_secret
  store_secret-view s {meta} u m v h =
      let e = ensure-Ensured c kek t s in
      elim (Result-cases (ensure_tenant_dek c kek t s).0) [
        | inl (dek, r) ↦
            rw (r, continue)
              (seal-view dek (ensure_tenant_dek c kek t s).1 {meta = meta} u m
                  (Ensured-returns c kek laws e r) (rw (r, continue) at h)
                ∙ ap (stored u m) (Ensured-view c kek laws u m e v))
        | inr (x, r) ↦ ground (arith, r)
      ]

module _ (c : Crypto) (kek : Text) (t : Uuid) (n : Text) where
  deleted-found :
      (s : Session) (o : Option SecretRow) (found : Bool)
      → find (named t n) s.db.secrets ≡ o
      → (delete_found_secret t n o s).0 ≡ ok found
      → found ≡ is_some (find (named t n) s.db.secrets)
  unfolding delete_found_secret
  deleted-found s none found f h = rw f (cc)
  deleted-found s (some r) found f h = rw f (cc)

  delete_found-view :
      (s : Session) (u : Uuid) (m : Text) (o : Option SecretRow)
      → find (named t n) s.db.secrets ≡ o
      → view c kek u m (delete_found_secret t n o s).1.db
        ≡ (if t == u && n == m then none else view c kek u m s.db)
  unfolding delete_found_secret
  delete_found-view s u m none f = elim (Bool-cases (t == u && n == m)) [
    | inl same ↦ let (et, en) = same-both t u n m same in rw (same, ← et, ← en, f)
    | inr other ↦ rw other
  ]
  delete_found-view s u m (some r) f = elim (Bool-cases (t == u && n == m)) [
    | inl same ↦
        let (et, en) = same-both t u n m same in
        rw (
          same,
          ← et,
          ← en,
          find-keep-none (λ x. not (named t n x)) (named t n) s.db.secrets
              (λ x h. not-true (named t n x) h),
        )
    | inr other ↦ rw (
      other,
      find-keep (λ x. not (named t n x)) (named u m) s.db.secrets
          (λ x h. rw (named-other t u n m x other h)),
    )
  ]

  -- A deletion that returns takes the secret of that name out of the vault's map, leaves the
  -- others, and reports whether it was there.
  pub delete_secret-view :
      (s : Session) {found : Bool} (u : Uuid) (m : Text)
      → (delete_secret t n s).0 ≡ ok found
      → (found ≡ is_some (find (named t n) s.db.secrets))
        × (view c kek u m (delete_secret t n s).1.db
            ≡ (if t == u && n == m then none else view c kek u m s.db))
  unfolding delete_secret secrets_named
  delete_secret-view s {found} u m h =
      elim (Result-cases (scalar_one_or_none (keep (named t n) s.db.secrets))) [
        | inl (o, e) ↦ (
          deleted-found s o found (found-one _ s.db.secrets o e) (rw (e, continue) at h),
          rw (e, continue) (delete_found-view s u m o (found-one _ s.db.secrets o e)),
        )
        | inr (x, e) ↦ ground (arith, e)
      ]
