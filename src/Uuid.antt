-- ===== src/Uuid.antt =====
-- `str` of a `uuid.UUID`, by which the orchestrator names containers, networks and directories.
pub mod Distinct
pub mod Parse
pub mod RoundTrip
pub mod Replaces
use octw.Prelude.{
  ℕ, zero, suc, ◌+◌, ◌/◌, ◌%◌, Text, codes, List, [], ◌∷◌, ◌++◌, ltb, if◌then◌else◌, take, drop,
}
use octw.Models.Tenant.{Uuid}

unfoldable pub hex_digit : ℕ → ℕ
hex_digit d = if ltb d 10 then 48 + d else 87 + d

-- The last `k` digits of a number, in base 16.
unfoldable pub hex : ℕ → ℕ → Text
unfolding hex_digit
hex zero n = []
hex (suc k) n = hex k (n / 16) ++ hex_digit (n % 16) ∷ []

-- The groups of 8, 4, 4, 4 and 12 digits.
unfoldable pub uuid_text : Uuid → Text
unfolding hex
uuid_text u =
    let digits = hex 32 u in
    take 8 digits
    ++ codes "-"
    ++ take 4 (drop 8 digits)
    ++ codes "-"
    ++ take 4 (drop 12 digits)
    ++ codes "-"
    ++ take 4 (drop 16 digits)
    ++ codes "-"
    ++ drop 20 digits
