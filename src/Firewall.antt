-- ===== src/Firewall.antt =====
-- The firewall helper: a privileged program that keeps the rules of the firewall page in a state file
-- and loads them into nftables (src/services/firewall-helper/main.c).
pub mod Validate
pub mod State
pub mod Ruleset
pub mod Command
pub mod Valid
pub mod Plain
pub mod RoundTrip
mod Tests
