-- ===== src/Environment.antt =====
-- The part of src/roff/troff/env.cpp that fills and adjusts lines: tab stops and the space between words.
pub mod Spread
pub mod Tabs
pub mod Breakpoint
mod Tests
