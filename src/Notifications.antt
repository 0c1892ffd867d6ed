-- ===== src/Notifications.antt =====
-- Package lib/notifications.
pub mod TagExtractor
pub mod RegionMatcher
pub mod Annotator
pub mod Tests
