-- ===== src/Process/Timers.antt =====
-- No timer that a replica has set makes it panic.
use blsmr.Prelude.{ℕ, ◌≡◌, some, ◌<◌, nat_eq}
use blsmr.Client.{cmd_id_eq}
use blsmr.Host.{Host}
use blsmr.Dds.{Dds}
use blsmr.Process
use blsmr.Process.{Draw}

-- Choosing one of the keys below a bound gives one of them, if there are any, and a sample of the
-- Zipf distribution is at least one.
pub record IsDraw (draw : Draw) : Type 0 where
  pub chosen : (n : ℕ) → 0 < n → (key : ℕ) × (draw.choose n ≡ some key) × (key < n)
  pub sampled : 0 < draw.sample
