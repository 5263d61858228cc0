-- ===== src/Tests/VaultCases.antt =====
-- The vault at a secret of the sample.
use octw.Prelude.{
  Text, codes, true, none, some, [], ◌∷◌, ◌≡◌, refl, has, find, keep, text_beq, update, insert,
  lookup, last_of, Dict,
}
use octw.Exec.{ok}
use octw.Config.{default_settings}
use octw.Models.Secret.{env}
use octw.Db.{Session, secrets_named, secrets_of}
use octw.Vault.Service.{
  store_secret, delete_secret, get_decrypted_secrets, ensure_tenant_dek, seal_and_put, put_secret,
}
use octw.Vault.Sound.{view}
use octw.Vault.Store.{store_secret-view, delete_secret-view}
use octw.Vault.Environment.{get_decrypted_secrets-entries}
use octw.Orchestrator.Spec.{run_spec}
use octw.Orchestrator.Environment.{run_spec-environment}
use octw.Tenants.Rows.{row_to_tenant}
use octw.Tests.Machine.{marks, marks-CryptoLaws}
use octw.Tests.Sample.{sample-IsSound, session, kek, acme}

abbrev token : Text
token = codes "token"

abbrev after_store : Session
after_store = (store_secret marks kek 1 token (codes "new") env none session).1

store_secret-view_example : view marks kek 1 token after_store.db ≡ some (codes "new")
unfolding store_secret ensure_tenant_dek find seal_and_put keep text_beq put_secret
store_secret-view_example =
    store_secret-view marks kek marks-CryptoLaws 1 token (codes "new") env none session 1 token
      sample-IsSound refl

abbrev after_delete : Session
after_delete = (delete_secret 1 token session).1

delete_secret-view_example : (true ≡ true) × (view marks kek 1 token after_delete.db ≡ none)
unfolding delete_secret secrets_named keep text_beq find
delete_secret-view_example = delete_secret-view marks kek 1 token session 1 token refl

get_decrypted_secrets-entries_example :
    (get_decrypted_secrets marks kek 1 session).0 ≡ ok ((codes "TOKEN", codes "hush") ∷ [])
unfolding has update secrets_of keep find get_decrypted_secrets ensure_tenant_dek insert
get_decrypted_secrets-entries_example =
    get_decrypted_secrets-entries marks kek marks-CryptoLaws 1 session sample-IsSound refl

abbrev secret_env : Dict Text
secret_env = (codes "ZAI_API_KEY", codes "own") ∷ []

run_spec-environment_example :
    lookup
      (codes "ZAI_API_KEY")
      (run_spec default_settings
        (row_to_tenant acme)
        (some (codes "ZAI_API_KEY"))
        secret_env).environment
    ≡ some (codes "own")
unfolding last_of text_beq
run_spec-environment_example =
    run_spec-environment default_settings (row_to_tenant acme) (some (codes "ZAI_API_KEY"))
      secret_env (codes "ZAI_API_KEY")
