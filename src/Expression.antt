-- ===== src/Expression.antt =====
-- src/roff/troff/number.cpp: reading a numeric expression from the token stream.
-- A reader takes the tokens still unread. Each carries what the environment says while it is the
-- current one, since reading a token may change the environment (an escape such as \s does).
pub mod Input
pub mod Number
pub mod Operators
pub mod Reader
pub mod Bounds
pub mod Steps
pub mod Total
pub mod Digits
pub mod LeftToRight
pub mod Crement
pub mod Meaning
pub mod Faults
mod Tests
mod Examples
