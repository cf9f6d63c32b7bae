-- ===== src/SignedPlan/Text/Tests.antt =====
-- Runs of the matchers, and the theorems at concrete texts.
use permanu_agent.Base.{ℕ, ◌≤◌, ◌≡◌, refl, ◌↔◌, true, some, pos, codes, length, All}
use permanu_agent.SignedPlan.Text.{all_indexed, hostname}
use permanu_agent.SignedPlan.Text.Regex.{Matches}
use permanu_agent.SignedPlan.Text.Hosts.{hostname_pattern, hostname-Matches}
use permanu_agent.SignedPlan.Text.Address.{public_ipv4, default_route, non_public_ipv4}
use permanu_agent.SignedPlan.Text.Address.Octets.{IsAddress}
use permanu_agent.SignedPlan.Text.Address.Routes.{
  IsOutside, IsRoute, public_ipv4-IsAddress, default_route-IsRoute,
}
use permanu_agent.SignedPlan.Text.Time.{
  days_in_month, is_leap, timestamp, format_timestamp, timestamp_byte, checked,
}
use permanu_agent.SignedPlan.Text.Time.Stamps.{format_timestamp-timestamp}

hostname-Matches_example :
    (hostname (codes "db.example.com") ≡ true)
    ↔ ((length (codes "db.example.com") ≤ 253) × Matches hostname_pattern (codes "db.example.com"))
hostname-Matches_example = hostname-Matches (codes "db.example.com")

public_ipv4-IsAddress_example :
    (public_ipv4 (codes "10.0.0.1") ≡ true
      → (ip : ℕ) × IsAddress b'.' (codes "10.0.0.1") ip × All (IsOutside ip) non_public_ipv4)
    × ((ip : ℕ)
        → IsAddress b'.' (codes "10.0.0.1") ip
        → All (IsOutside ip) non_public_ipv4
        → public_ipv4 (codes "10.0.0.1") ≡ true)
public_ipv4-IsAddress_example = public_ipv4-IsAddress (codes "10.0.0.1")

default_route-IsRoute_example :
    (default_route (codes "web.10-0-0-1.sslip.io") ≡ true → IsRoute (codes "web.10-0-0-1.sslip.io"))
    × (IsRoute (codes "web.10-0-0-1.sslip.io")
        → default_route (codes "web.10-0-0-1.sslip.io") ≡ true)
default_route-IsRoute_example = default_route-IsRoute (codes "web.10-0-0-1.sslip.io")

leap_february : days_in_month 2000 2 ≡ some 29
unfolding days_in_month is_leap
leap_february = refl

moment : timestamp (codes "2000-02-29T12:30:00Z") ≡ some (pos 951_827_400)
unfolding timestamp all_indexed timestamp_byte checked
moment = refl

format_timestamp-timestamp_example :
    format_timestamp (pos 951_827_400) ≡ codes "2000-02-29T12:30:00Z"
format_timestamp-timestamp_example =
    format_timestamp-timestamp (codes "2000-02-29T12:30:00Z") (pos 951_827_400) moment
