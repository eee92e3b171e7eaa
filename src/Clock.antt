-- ===== src/Clock.antt =====
-- Instants and durations of package time. An instant counts the nanoseconds since the zero Time.
use go_grpcbridge.Base.{
  ℕ, ◌+◌, ◌-◌, ◌*◌, ◌≤◌, ◌<◌, ◌≡◌, ◌↔◌, Bool, true, arith, leb, ◌==◌, if◌then◌else◌, ℤ, pos, negsuc,
  sub_ℕ, leℤ,
}

abbrev pub Time : Type 0
Time = ℕ

-- time.Duration: nanoseconds in an int64.
abbrev pub Duration : Type 0
Duration = ℤ

abbrev pub max_duration : ℕ
max_duration = 0x7fffffffffffffff

abbrev pub second : ℕ
second = 1_000_000_000

abbrev pub minute : ℕ
minute = 60 * second

abbrev pub is_zero : Time → Bool
is_zero t = t == 0

saturate : ℤ → Duration
saturate (pos n) = if leb n max_duration then pos n else pos max_duration
saturate (negsuc n) = if leb n max_duration then negsuc n else negsuc max_duration

-- Time.Sub saturates at the ends of the int64 range.
unfoldable pub sub : Time → Time → Duration
unfolding saturate
sub t u = saturate (sub_ℕ t u)

pub elapsed_iff : (t u d : ℕ) → d ≤ max_duration → (leℤ (pos d) (sub t u) ≡ true) ↔ (u + d ≤ t)
unfolding sub
elapsed_iff t u d h = ground arith

pub sub-pos : (t u : ℕ) → u < t → t ≤ u + max_duration → sub t u ≡ pos (t - u)
unfolding sub
sub-pos t u h k = ground arith
