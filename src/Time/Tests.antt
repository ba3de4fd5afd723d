-- ===== src/Time/Tests.antt =====
-- Runs of kernel/time/time.h.
use osy.Common.{ℕ, ◌*◌, ◌≤◌, ◌≡◌, refl, arith}
use osy.Time.{
  sec_to_jiffies, jiffies_to_sec, usec_to_jiffies, jiffies_to_usec, jiffies_to_sec-least,
}

-- 2500 jiffies are three seconds.
jiffies_to_sec-least_example :
    (2500 ≤ jiffies_to_sec 2500 * 1000)
    × ((sec : ℕ) → 2500 ≤ sec * 1000 → jiffies_to_sec 2500 ≤ sec)
    × (sec_to_jiffies (jiffies_to_sec 2500) ≡ jiffies_to_sec 2500 * 1000)
    × ((sec : ℕ) → sec ≤ 4294966 → jiffies_to_sec (sec_to_jiffies sec) ≡ sec)
jiffies_to_sec-least_example = jiffies_to_sec-least 2500 (omega arith)

rounded_up : jiffies_to_sec 2500 ≡ 3
unfolding jiffies_to_sec
rounded_up = refl

-- Ten seconds, asked for in microseconds, are 1411 jiffies: the product wraps around.
ten_seconds : usec_to_jiffies 10000000 ≡ 1411
unfolding usec_to_jiffies
ten_seconds = refl

-- Five seconds' worth of jiffies are given as 705033 microseconds.
five_seconds : jiffies_to_usec 5000 ≡ 705033
unfolding jiffies_to_usec
five_seconds = refl
