-- ===== src/Profile/Time.antt =====
-- The sums of times in tl_profile_end.
use common_tool.Base.{ℕ, ◌+◌, ◌-◌, ◌*◌, ◌^◌, ◌≤◌, ◌<◌, ◌≡◌, arith}
use common_tool.Profile.{Clock, million, elapsed, charge}

-- A time in microseconds.
abbrev pub micros : Clock → ℕ
micros c = c.sec * million + c.usec

-- A clock whose microseconds are less than a second, and whose seconds leave room.
pub record IsClock (c : Clock) : Type 0 where
  pub usec : c.usec < million
  pub sec : c.sec < 2 ^ 62

pub charge-elapsed :
    (total ut now : Clock)
    → IsClock total
    → IsClock ut
    → IsClock now
    → micros ut ≤ micros now
    → ((charge total (elapsed now ut)).usec < million)
      × (micros (charge total (elapsed now ut)) ≡ micros total + micros now - micros ut)
unfolding charge elapsed
charge-elapsed total ut now t u n h =
    let tu = t.usec in
    let ts = t.sec in
    let uu = u.usec in
    let us = u.sec in let nu = n.usec in let ns = n.sec in (ground arith, ground arith)
