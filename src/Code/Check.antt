-- ===== src/Code/Check.antt =====
-- `check_code` of src/code.cpp, a function for each group of its cases. `check` is the recursive
-- call; a message of an error is left out.
pub mod Apps
pub mod Cases
pub mod Scoped
pub mod Simple
pub mod Types
