-- ===== src/Dhcpv6/Times.antt =====
-- src/dhcpv6.rs, `default_t1_t2`: when a client renews and rebinds by default.
use rusty_dhcp.Base.{ℕ, ◌+◌, ◌-◌, ◌*◌, ◌/◌, ◌≤◌, ◌<◌, arith}

unfoldable pub default_t1_t2 : ℕ → ℕ × ℕ
default_t1_t2 lease_secs = (lease_secs / 2, lease_secs - lease_secs / 8)

-- For every lease time T1 comes no later than T2 and T2 no later than the end of the lease; T1 is
-- half of the lease time rounded down, and T2 seven eighths of it rounded up.
pub default_t1_t2-le :
    (lease_secs : ℕ)
    → ((default_t1_t2 lease_secs).0 ≤ (default_t1_t2 lease_secs).1)
      × ((default_t1_t2 lease_secs).1 ≤ lease_secs)
      × (2 * (default_t1_t2 lease_secs).0 ≤ lease_secs)
      × (lease_secs < 2 * (default_t1_t2 lease_secs).0 + 2)
      × (7 * lease_secs ≤ 8 * (default_t1_t2 lease_secs).1)
      × (8 * (default_t1_t2 lease_secs).1 < 7 * lease_secs + 8)
unfolding default_t1_t2
default_t1_t2-le lease_secs =
    (omega arith, omega arith, omega arith, omega arith, omega arith, omega arith)
