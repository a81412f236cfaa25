-- ===== src/Web.antt =====
-- The rules that the web application keeps in apps/web/src/lib: `Roles` is what it shows to whom,
-- `Paths` where a login may lead, `History` what a station scanned last.
pub mod Roles
pub mod Paths
pub mod History
pub mod Gate
pub mod Membership
pub mod ActiveTrip
