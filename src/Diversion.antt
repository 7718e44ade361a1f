-- ===== src/Diversion.antt =====
-- Page location traps of src/roff/troff/div.cpp.
pub mod Traps
pub mod Page
mod Tests
