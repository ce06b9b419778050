-- ===== src/Processes/Windows.antt =====
-- CrossPlatform/ProcessApi.Windows.cpp, built for 64-bit Windows.
pub mod Layout
pub mod ShortName
pub mod Ids
pub mod Walk
pub mod Enumerating
pub mod Naming
pub mod Marks
pub mod Shortening
pub mod Table
pub mod Reading
pub mod Collecting
pub mod Walking
pub mod Visiting
pub mod Answer
pub mod Query
pub mod Listing
mod Tests
