-- ===== src/Code/Run.antt =====
-- `run_code_internal` of src/code.cpp, a function for each group of its cases. `run e use_cache` is
-- the recursive call, also where the source jumps back to its start; NULL is the failure of a side
-- condition. Output is left out.
pub mod Numbers
pub mod Params
pub mod Tests
pub mod Values
pub mod Matching
pub mod Calls
pub mod Examples
pub mod Interp
pub mod Restores
pub use Interp.{run_code_internal, run_code}
