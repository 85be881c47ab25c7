-- ===== src/Common.antt =====
-- Helpers that every component shares: library names passed on, tests on numbers, lists, integers.
pub mod Tests
pub mod Lists
pub mod Base
pub mod Int
pub mod Counting
pub use Base.*
pub use Lists.*
