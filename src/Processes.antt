-- ===== src/Processes.antt =====
-- CrossPlatform/ProcessApi.Linux.cpp. `read_all_text` stands for File::ReadAllText, which returns an
-- empty string for a file that cannot be opened.
pub mod Names
pub mod Status
pub mod Stat
pub mod Table
pub mod Process
pub mod Windows
pub mod Reading
pub mod Failing
pub mod Missing
mod Tests
