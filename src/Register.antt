-- ===== src/Register.antt =====
-- src/roff/troff/reg.cpp: how a register's value is formatted. A string is the list of its characters;
-- `none` is undefined behaviour of C++.
pub mod Decimal
pub mod Roman
pub mod Alphabetic
pub mod Format
pub mod Laws
mod Tests
