-- ===== src/TimeZones.antt =====
-- The values of System/TransitionTime.cpp and System/AdjustmentRule.cpp in `Transition` and `Rule`,
-- and the names of CrossPlatform/TimeZoneApi.Linux.cpp in `Database`.
pub mod Transition
pub mod Validity
pub mod Rule
pub mod Adjusting
pub mod Ownership
pub mod Database
pub mod Loading
mod Tests
