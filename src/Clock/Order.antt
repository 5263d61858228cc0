-- ===== src/Clock/Order.antt =====
-- Later stamps are larger texts.
use octw.Prelude.{
  ℕ, zero, suc, ◌+◌, ◌*◌, ◌/◌, ◌%◌, ◌≤◌, ◌<◌, ◌≡◌, ◌⊎◌, inl, inr, refl, Text, codes, true, false,
  [], ◌∷◌, ◌++◌, leb, length, text_leb, text_leb_refl, text_leb-append, Bool-cases, leb→le, arith,
}
use octw.Exec.{ok}
use octw.Models.Tenant.{Time}
use octw.Clock.{
  CivilDate, max_year, days_in_month, is_leap, next_day, civil_date, pad2, pad4, day_number,
  format_stamp, stamp, stamp_text,
}

lt_or_eq : (a b : ℕ) → a ≤ b → (a < b) ⊎ (a ≡ b)
lt_or_eq a b h = ground arith

record IsDate (t : CivilDate) : Type 0 where
  month_in : (1 ≤ t.month) × (t.month ≤ 12)
  day_in : (1 ≤ t.day) × (t.day ≤ 31)

abbrev date_key : CivilDate → ℕ
date_key t = t.year * 372 + t.month * 31 + t.day

days_in_month_bounds : (y m : ℕ) → (28 ≤ days_in_month y m) × (days_in_month y m ≤ 31)
unfolding days_in_month is_leap
days_in_month_bounds y m = ground arith

next_day-IsDate : (t : CivilDate) → IsDate t → IsDate (next_day t)
unfolding next_day
next_day-IsDate t v = ground (arith, days_in_month_bounds t.year t.month)

date_key-next_day : (t : CivilDate) → IsDate t → date_key t < date_key (next_day t)
unfolding next_day
date_key-next_day t v = ground (arith, days_in_month_bounds t.year t.month)

civil_date-IsDate : (n : ℕ) → IsDate (civil_date n)
unfolding civil_date
civil_date-IsDate zero = record {
  month_in = (omega arith, omega arith);
  day_in = (omega arith, omega arith);
}
civil_date-IsDate (suc n) = next_day-IsDate (civil_date n) (civil_date-IsDate n)

date_key-civil_date : (m n : ℕ) → m < n → date_key (civil_date m) < date_key (civil_date n)
unfolding civil_date
date_key-civil_date m zero h = absurd (omega arith)
date_key-civil_date m (suc n) h = elim (lt_or_eq m n (omega arith)) [
  | inl lt ↦
      omega
        (arith, date_key-civil_date m n lt, date_key-next_day (civil_date n) (civil_date-IsDate n))
  | inr e ↦ rw e (date_key-next_day (civil_date n) (civil_date-IsDate n))
]

abbrev Before : Text → Text → Type 0
Before s t = (text_leb s t ≡ true) × (text_leb t s ≡ false)

Before-append : (p q r s : Text) → length p ≡ length q → Before p q → Before (p ++ r) (q ++ s)
unfolding text_leb
Before-append [] [] r s e h = cc
Before-append [] (d ∷ q) r s e h = absurd (omega arith)
Before-append (c ∷ p) [] r s e h = absurd (omega arith)
Before-append (c ∷ p) (d ∷ q) r s e h = ground (arith, Before-append p q r s)

Before-behind : (p r s : Text) → Before r s → Before (p ++ r) (p ++ s)
Before-behind p r s h = rw (text_leb-append p r s, text_leb-append p s r) h

pad2-Before : (a b : ℕ) → a < b → b < 100 → Before (pad2 a) (pad2 b)
unfolding text_leb
pad2-Before a b h k = ground arith

-- Two digits, then the rest.
pad2_front :
    (a b : ℕ) (r s : Text)
    → b < 100
    → (a < b) ⊎ ((a ≡ b) × Before r s)
    → Before (pad2 a ++ r) (pad2 b ++ s)
pad2_front a b r s h (inl lt) = Before-append (pad2 a) (pad2 b) r s refl (pad2-Before a b lt h)
pad2_front a b r s h (inr (e, k)) = rw e (Before-behind (pad2 b) r s k)

pad4-Before : (a b : ℕ) → a < b → b ≤ max_year → Before (pad4 a) (pad4 b)
pad4-Before a b h k =
    pad2_front (a / 100) (b / 100) (pad2 (a % 100)) (pad2 (b % 100)) (omega arith)
      (elim (lt_or_eq (a / 100) (b / 100) (omega arith)) [
        | inl lt ↦ inl lt
        | inr e ↦ inr (e, pad2-Before (a % 100) (b % 100) (omega arith) (omega arith))
      ])

abbrev clock : ℕ → Text
clock sec = pad2 (sec / 3600) ++ (pad2 (sec / 60 % 60) ++ (pad2 (sec % 60) ++ codes "Z"))

clock-Before : (s t : ℕ) → s < t → t < 86400 → Before (clock s) (clock t)
clock-Before s t h k =
    let seconds = λ (e : s / 3600 ≡ t / 3600) (e' : s / 60 % 60 ≡ t / 60 % 60).
      pad2_front (s % 60) (t % 60) (codes "Z") (codes "Z") (omega arith) (inl (omega arith)) in
    let minutes = λ (e : s / 3600 ≡ t / 3600).
      pad2_front (s / 60 % 60) (t / 60 % 60) (pad2 (s % 60) ++ codes "Z")
        (pad2 (t % 60) ++ codes "Z") (omega arith)
        (elim (lt_or_eq (s / 60 % 60) (t / 60 % 60) (omega arith)) [
          | inl lt ↦ inl lt
          | inr e' ↦ inr (e', seconds e e')
        ]) in
    pad2_front (s / 3600) (t / 3600) (pad2 (s / 60 % 60) ++ (pad2 (s % 60) ++ codes "Z"))
      (pad2 (t / 60 % 60) ++ (pad2 (t % 60) ++ codes "Z")) (omega arith)
      (elim (lt_or_eq (s / 3600) (t / 3600) (omega arith)) [
        | inl lt ↦ inl lt
        | inr e ↦ inr (e, minutes e)
      ])

-- An earlier date is a smaller text, whatever follows.
dates-Before :
    (a b : CivilDate) (r s : Text)
    → IsDate a
    → IsDate b
    → b.year ≤ max_year
    → date_key a < date_key b
    → Before
        (pad4 a.year ++ (pad2 a.month ++ (pad2 a.day ++ r)))
        (pad4 b.year ++ (pad2 b.month ++ (pad2 b.day ++ s)))
dates-Before a b r s v w k h =
    let days = λ (e : a.year ≡ b.year) (e' : a.month ≡ b.month).
      pad2_front a.day b.day r s (omega arith) (inl (omega arith)) in
    let months = λ (e : a.year ≡ b.year).
      pad2_front a.month b.month (pad2 a.day ++ r) (pad2 b.day ++ s) (omega arith)
        (elim (lt_or_eq a.month b.month (omega arith)) [
          | inl lt ↦ inl lt
          | inr e' ↦ inr (e', days e e')
        ]) in
    elim (lt_or_eq a.year b.year (omega arith)) [
      | inl lt ↦ Before-append (pad4 a.year) (pad4 b.year) _ _ refl (pad4-Before a.year b.year lt k)
      | inr e ↦ rw e (Before-behind (pad4 b.year) _ _ (months e))
    ]

stamp_text-Before :
    (s t : Time)
    → s < t
    → (civil_date (day_number t)).year ≤ max_year
    → Before (stamp_text s) (stamp_text t)
unfolding stamp_text format_stamp
stamp_text-Before s t h k = elim (lt_or_eq (day_number s) (day_number t) (omega arith)) [
  | inl lt ↦
      dates-Before (civil_date (day_number s)) (civil_date (day_number t))
        (codes "T" ++ clock (s % 86400)) (codes "T" ++ clock (t % 86400))
        (civil_date-IsDate (day_number s)) (civil_date-IsDate (day_number t)) k
        (date_key-civil_date (day_number s) (day_number t) lt)
  | inr e ↦
      let front = civil_date (day_number t) in
      rw e (
        Before-behind (pad4 front.year) _ _ (
          Before-behind (pad2 front.month) _ _ (
            Before-behind (pad2 front.day) _ _ (
              Before-behind (codes "T") _ _
                (clock-Before (s % 86400) (t % 86400) (omega arith) (omega arith))))))
]

stamp-eq-ok :
    (now : Time) (a : Text)
    → stamp now ≡ ok a
    → ((civil_date (day_number now)).year ≤ max_year) × (stamp_text now ≡ a)
unfolding stamp
stamp-eq-ok now a h = ground arith

length-stamp_text : (s t : Time) → length (stamp_text s) ≡ length (stamp_text t)
unfolding stamp_text format_stamp
length-stamp_text s t = refl

stamp_text-leb :
    (s t : Time) (r : Text)
    → (civil_date (day_number s)).year ≤ max_year
    → (civil_date (day_number t)).year ≤ max_year
    → text_leb (stamp_text s ++ r) (stamp_text t ++ r) ≡ leb s t
stamp_text-leb s t r h k = elim (Bool-cases (leb s t)) [
  | inr more ↦ rw (
    more,
    (Before-append (stamp_text t) (stamp_text s) r r (length-stamp_text t s)
        (stamp_text-Before t s (ground arith) h)).1,
  )
  | inl le ↦ elim (lt_or_eq s t (leb→le s t le)) [
    | inl lt ↦ rw (
      le,
      (Before-append (stamp_text s) (stamp_text t) r r (length-stamp_text s t)
          (stamp_text-Before s t lt k)).0,
    )
    | inr e ↦ rw (le, e, text_leb_refl (stamp_text t ++ r))
  ]
]

-- Stamps stand in the order of their times, also where the same text follows them.
pub text_leb-stamp :
    (s t : Time) (a b r : Text)
    → stamp s ≡ ok a
    → stamp t ≡ ok b
    → text_leb (a ++ r) (b ++ r) ≡ leb s t
text_leb-stamp s t a b r h k =
    let (year_s, is_a) = stamp-eq-ok s a h in
    let (year_t, is_b) = stamp-eq-ok t b k in
    rw (← is_a, ← is_b) (stamp_text-leb s t r year_s year_t)
