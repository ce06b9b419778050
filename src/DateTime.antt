-- ===== src/DateTime.antt =====
-- System/DateTime.cpp and System/DateTime.h. `Calendar` has the constants and the file's helpers,
-- `Value` the constructors and comparisons, `Fields` the parts of a date and time, `Shift` the
-- operations that return another date and time. `Gregorian` is the calendar that they should follow.
pub mod Gregorian
pub mod Calendar
pub mod Leap
pub mod Tables
pub mod Ordinal
pub mod Value
pub mod Fields
pub mod Affine
pub mod March
pub mod Parts
pub mod RoundTrip
pub mod Shift
pub mod FileTime
pub mod KindLoss
pub mod Landing
pub mod Months
pub mod Moves
pub mod Text
pub mod Printing
mod Tests
