-- ===== src/Clock.antt =====
-- `datetime.utcnow()` and `strftime` of Python, by which a backup is named: the date and the time
-- of day of a number of seconds since 1970-01-01.
pub mod Order
use octw.Prelude.{
  Bool, false, ℕ, zero, suc, ◌+◌, ◌/◌, ◌%◌, Text, codes, [], ◌∷◌, ◌++◌, leb, ltb, nat_beq, not,
  ◌||◌, if◌then◌else◌,
}
use octw.Exec.{Result, ok, err, value_error}
use octw.Models.Tenant.{Time}

pub record CivilDate : Type 0 where
  pub year : ℕ
  pub month : ℕ
  pub day : ℕ

-- `datetime.MAXYEAR`
abbrev pub max_year : ℕ
max_year = 9999

unfoldable pub is_leap : ℕ → Bool
is_leap y = if nat_beq (y % 4) 0 then not (nat_beq (y % 100) 0) || nat_beq (y % 400) 0 else false

unfoldable pub days_in_month : ℕ → ℕ → ℕ
unfolding is_leap
days_in_month y m =
    if nat_beq m 2
    then (if is_leap y then 29 else 28)
    else if nat_beq m 4 || nat_beq m 6 || nat_beq m 9 || nat_beq m 11
    then 30
    else 31

unfoldable pub next_day : CivilDate → CivilDate
unfolding days_in_month
next_day t =
    if ltb t.day (days_in_month t.year t.month)
    then record t { day = t.day + 1 }
    else if ltb t.month 12
    then record t { month = t.month + 1; day = 1 }
    else record { year = t.year + 1; month = 1; day = 1 }

-- The date so many days after 1970-01-01.
unfoldable pub civil_date : ℕ → CivilDate
unfolding next_day
civil_date zero = record { year = 1970; month = 1; day = 1 }
civil_date (suc n) = next_day (civil_date n)

abbrev pub pad2 : ℕ → Text
pad2 n = (48 + n / 10) ∷ (48 + n % 10) ∷ []

abbrev pub pad4 : ℕ → Text
pad4 n = pad2 (n / 100) ++ pad2 (n % 100)

abbrev pub day_number : Time → ℕ
day_number now = now / 86400

-- `%Y%m%dT%H%M%SZ`
unfoldable pub format_stamp : CivilDate → ℕ → Text
format_stamp t sec =
    pad4 t.year
    ++ (pad2 t.month
        ++ (pad2 t.day
            ++ (codes "T"
                ++ (pad2 (sec / 3600)
                    ++ (pad2 (sec / 60 % 60) ++ (pad2 (sec % 60) ++ codes "Z"))))))

unfoldable pub stamp_text : Time → Text
unfolding civil_date format_stamp
stamp_text now = format_stamp (civil_date (day_number now)) (now % 86400)

-- `datetime.utcnow().strftime("%Y%m%dT%H%M%SZ")`, which raises once the years are up.
unfoldable pub stamp : Time → Result Text
unfolding civil_date stamp_text
stamp now =
    if leb (civil_date (day_number now)).year max_year then ok (stamp_text now) else err value_error
