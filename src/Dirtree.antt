-- ===== src/Dirtree.antt =====
-- Lab2/202110421_assign2/dirtree.c: the filter of option -f, the options, the walk and its output.
pub mod Pattern
pub mod Match
pub mod Language
pub mod Summary
pub mod Name
pub mod Options
pub mod Sys
pub mod Print
pub mod Entries
pub mod Walk
pub mod Run
