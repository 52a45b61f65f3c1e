-- ===== src/Backup/Order.antt =====
-- cmd/server/backup.go: the keys of backups are ordered as the times that they are made at.
use fusion_index.Prelude.{
  ℕ, ◌+◌, ◌*◌, ◌/◌, ◌%◌, ◌<◌, ◌≡◌, refl, ap, ◌∙◌, Bool, false, ◌&&◌, ◌||◌, [], ◌∷◌, ◌++◌, Text,
  codes, ltb, ◌==◌, arith,
}
use fusion_index.Config.{Config}
use fusion_index.Backup.{text_less}
use fusion_index.Backup.Latest.{less_refl}
use fusion_index.Backup.Command.{
  Moment, two_digits, four_digits, stamp, backup_filename, backup_key,
}

-- By the first field that differs.
abbrev field_less : ℕ → ℕ → Bool → Bool
field_less m n rest = ltb m n || (m == n && rest)

abbrev pub earlier : Moment → Moment → Bool
earlier t u = field_less t.year u.year (
    field_less t.month u.month (
      field_less t.day u.day (
        field_less t.hour u.hour
          (field_less t.minute u.minute (field_less t.second u.second false)))))

-- A year of four digits and other fields of two.
pub record IsMoment (t : Moment) : Type 0 where
  pub year : t.year < 10000
  pub month : t.month < 100
  pub day : t.day < 100
  pub hour : t.hour < 100
  pub minute : t.minute < 100
  pub second : t.second < 100

less-append : (p s t : Text) → text_less (p ++ s) (p ++ t) ≡ text_less s t
unfolding text_less
less-append [] s t = refl
less-append (c ∷ p) s t = ground (arith, less-append p s t)

digit_less :
    (h l k m : ℕ) (rest : Bool)
    → l < 10
    → m < 10
    → field_less (48 + h) (48 + k) (field_less (48 + l) (48 + m) rest)
      ≡ field_less (h * 10 + l) (k * 10 + m) rest
digit_less h l k m rest lo hi = ground arith

joined : (n : ℕ) → n / 10 % 10 * 10 + n % 10 ≡ n % 100
joined n = omega arith

two_digits_less :
    (m n : ℕ) (s t : Text)
    → text_less (two_digits m ++ s) (two_digits n ++ t)
      ≡ field_less (m % 100) (n % 100) (text_less s t)
unfolding text_less
two_digits_less m n s t =
    digit_less ((m / 10) % 10) (m % 10) ((n / 10) % 10) (n % 10) (text_less s t) (omega arith)
      (omega arith)
    ∙ rw (joined m, joined n) refl

field_less-two :
    (m n : ℕ) (s t : Text) (rest : Bool)
    → m < 100
    → n < 100
    → text_less s t ≡ rest
    → text_less (two_digits m ++ s) (two_digits n ++ t) ≡ field_less m n rest
field_less-two m n s t rest hm hn e =
    let low : m % 100 ≡ m = omega arith in
    let high : n % 100 ≡ n = omega arith in two_digits_less m n s t ∙ rw (low, high, e) refl

field_less-four :
    (m n : ℕ) (s t : Text) (rest : Bool)
    → m < 10000
    → n < 10000
    → text_less s t ≡ rest
    → text_less (four_digits m ++ s) (four_digits n ++ t) ≡ field_less m n rest
field_less-four m n s t rest hm hn e =
    two_digits_less (m / 100) (n / 100) (two_digits m ++ s) (two_digits n ++ t)
    ∙ ap (field_less (m / 100 % 100) (n / 100 % 100)) (two_digits_less m n s t ∙ rw e refl)
    ∙ centuries m n rest hm hn
  where
    centuries :
        (a b : ℕ) (r : Bool)
        → a < 10000
        → b < 10000
        → field_less (a / 100 % 100) (b / 100 % 100) (field_less (a % 100) (b % 100) r)
          ≡ field_less a b r
    centuries a b r ha hb = ground arith

-- What follows a field.
abbrev from_second : Moment → Text → Text
from_second t s = two_digits t.second ++ (b'Z' ∷ s)

abbrev from_minute : Moment → Text → Text
from_minute t s = two_digits t.minute ++ from_second t s

abbrev from_hour : Moment → Text → Text
from_hour t s = two_digits t.hour ++ from_minute t s

abbrev from_t : Moment → Text → Text
from_t t s = (b'T' ∷ []) ++ from_hour t s

abbrev from_day : Moment → Text → Text
from_day t s = two_digits t.day ++ from_t t s

abbrev from_month : Moment → Text → Text
from_month t s = two_digits t.month ++ from_day t s

stamp-less :
    (t u : Moment) (s : Text)
    → IsMoment t
    → IsMoment u
    → text_less (stamp t ++ s) (stamp u ++ s) ≡ earlier t u
unfolding stamp text_less
stamp-less t u s p q =
    field_less-four t.year u.year (from_month t s) (from_month u s) _ p.year q.year (
      field_less-two t.month u.month (from_day t s) (from_day u s) _ p.month q.month (
        field_less-two t.day u.day (from_t t s) (from_t u s) _ p.day q.day (
          less-append (b'T' ∷ []) (from_hour t s) (from_hour u s)
          ∙ field_less-two t.hour u.hour (from_minute t s) (from_minute u s) _ p.hour q.hour (
              field_less-two t.minute u.minute (from_second t s) (from_second u s) _ p.minute
                q.minute
                (field_less-two t.second u.second (b'Z' ∷ s) (b'Z' ∷ s) _ p.second q.second
                  (less_refl (b'Z' ∷ s)))))))

-- The keys of two times are compared as the times, where path.Join puts the same text before each name.
pub backup_key-less :
    (join : Text → Text → Text) (cfg : Config) (base : Text) (t u : Moment)
    → ((v : Moment) → backup_key join cfg v ≡ base ++ backup_filename v)
    → IsMoment t
    → IsMoment u
    → text_less (backup_key join cfg t) (backup_key join cfg u) ≡ earlier t u
unfolding backup_filename
backup_key-less join cfg base t u joins p q =
    rw (joins t, joins u)
      (less-append base _ _
        ∙ less-append (codes "backup-") _ _
        ∙ stamp-less t u (codes ".sql.gz") p q)
