-- ===== src/Time.antt =====
-- kernel/time/time.h: conversions between seconds, microseconds and jiffies, in 32-bit words.
mod Tests
use osy.Common.{ℕ, ◌+◌, ◌-◌, ◌*◌, ◌/◌, ◌^◌, ◌≤◌, ◌<◌, ◌≡◌, arith}
use osy.Common.Word.{u32}

abbrev pub timer_period : ℕ
timer_period = 1000

unfoldable pub sec_to_jiffies : ℕ → ℕ
sec_to_jiffies sec = u32 (sec * timer_period)

unfoldable pub usec_to_jiffies : ℕ → ℕ
usec_to_jiffies usec = u32 (u32 (usec * timer_period) + 999999) / 1000000

unfoldable pub jiffies_to_sec : ℕ → ℕ
jiffies_to_sec jiffies = u32 (u32 (jiffies + timer_period) + 2 ^ 32 - 1) / timer_period

unfoldable pub jiffies_to_usec : ℕ → ℕ
jiffies_to_usec jiffies =
    u32 (u32 (u32 (jiffies * 1000000) + timer_period) + 2 ^ 32 - 1) / timer_period

-- Up to 4294966296 jiffies, of which 1000 make a second, jiffies_to_sec gives the least number of
-- whole seconds that last at least as long, and converting it back gives exactly 1000 jiffies for
-- each; up to 4294966 seconds, converting seconds to jiffies and back gives the same seconds.
pub jiffies_to_sec-least :
    (jiffies : ℕ)
    → jiffies ≤ 4294966296
    → (jiffies ≤ jiffies_to_sec jiffies * 1000)
      × ((sec : ℕ) → jiffies ≤ sec * 1000 → jiffies_to_sec jiffies ≤ sec)
      × (sec_to_jiffies (jiffies_to_sec jiffies) ≡ jiffies_to_sec jiffies * 1000)
      × ((sec : ℕ) → sec ≤ 4294966 → jiffies_to_sec (sec_to_jiffies sec) ≡ sec)
unfolding jiffies_to_sec sec_to_jiffies
jiffies_to_sec-least jiffies h =
    (omega arith, (λ sec enough. omega (arith, enough)), omega arith, λ sec fit. omega (arith, fit))

-- Up to 4293967 microseconds, the jiffies that they are converted to last at least as long, by less
-- than one jiffy more.
pub usec_to_jiffies-least :
    (usec : ℕ)
    → usec ≤ 4293967
    → (usec ≤ usec_to_jiffies usec * timer_period)
      × (usec_to_jiffies usec * timer_period < usec + timer_period)
unfolding usec_to_jiffies
usec_to_jiffies-least usec h = (omega arith, omega arith)
