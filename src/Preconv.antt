-- ===== src/Preconv.antt =====
-- src/preproc/preconv/preconv.cpp: text in some encoding becomes text for troff.
pub mod Utf8
pub mod TagLines
pub mod CodingTag
mod Tests
