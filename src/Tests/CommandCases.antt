-- ===== src/Tests/CommandCases.antt =====
-- The master key, and commands of the operator.
use octw.Prelude.{Text, codes, false, true, none, some, [], ◌∷◌, ◌≡◌, refl}
use octw.Exec.{ok, err, value_error, runtime_error, abort}
use octw.Config.{default_settings}
use octw.Models.Tenant.{TenantPlan, IsolationMode}
use octw.Vault.Kek.{from_hex, load_kek}
use octw.Cli.Commands.{tenant_delete, tenant_request}
use octw.Tests.Machine.{boxes, marks}
use octw.Tests.Sample.{world}

hex_forms :
    (from_hex (codes "00 fF") ≡ some (0 ∷ 255 ∷ []))
    × (from_hex (codes "0 0") ≡ none)
    × (from_hex (codes "123") ≡ none)
unfolding from_hex octw.Uuid.Parse.digit_value
hex_forms = (refl, refl, refl)

kek_forms :
    (load_kek boxes default_settings (some (codes "00ff")) [] ≡ err value_error)
    × (load_kek boxes default_settings none [] ≡ err runtime_error)
unfolding load_kek from_hex octw.Uuid.Parse.digit_value octw.Vault.Kek.kek_from_file
kek_forms = (refl, refl)

abbrev pub hex_kek : Text
hex_kek = codes "000102030405060708090a0b0c0d0e0f101112131415161718191a1b1c1d1e1f"

abbrev pub raw_kek : Text
raw_kek =
    0 ∷ 1 ∷ 2 ∷ 3 ∷ 4 ∷ 5 ∷ 6 ∷ 7 ∷ 8 ∷ 9 ∷ 10 ∷ 11 ∷ 12 ∷ 13 ∷ 14 ∷ 15 ∷ 16 ∷ 17 ∷ 18 ∷ 19 ∷ 20
    ∷ 21 ∷ 22 ∷ 23 ∷ 24 ∷ 25 ∷ 26 ∷ 27 ∷ 28 ∷ 29 ∷ 30 ∷ 31 ∷ []

hex_kek-loads : load_kek boxes default_settings (some hex_kek) [] ≡ ok raw_kek
unfolding load_kek from_hex octw.Uuid.Parse.digit_value
hex_kek-loads = refl

unconfirmed :
    tenant_delete boxes marks default_settings none (codes "1") false world ≡ (err abort, world)
unfolding tenant_delete
unconfirmed = refl

short_slug :
    tenant_request (codes "ab") (codes "A") TenantPlan.standard IsolationMode.standard true
    ≡ err value_error
unfolding tenant_request octw.Edge.Slugs.slug_pattern octw.Edge.Slugs.slug_tail
short_slug = refl
