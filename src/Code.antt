-- ===== src/Code.antt =====
-- Side condition code, src/code.cpp: the machine that runs it, and the commands that the cases of
-- its interpreter share.
pub mod Cache
pub mod Check
pub mod Examples
pub mod Kind
pub mod Marks
pub mod Run
pub mod Symbols
use lfsc.Common.{ℕ, Bool, List, if◌then◌else◌, ◌==◌}
use lfsc.Gmp.{Gmp}
use lfsc.Heap.{Ptr, null, Heap, ok, stop, Cmd, pure, and_then, ◌>>=◌}
use Cache.{ExprTrie}

-- What a run of code can change: the expressions, the marks of the variables (`mark_map`, in which
-- an absent variable counts as 0) and the cache of the results of functions.
pub record Machine (Z Q : Type 0) : Type 0 where
  pub heap : Heap Z Q
  pub marks : Ptr → ℕ
  pub cache : ExprTrie

-- What it reads besides: the functions of GMP, `progFunctions`, and for `--run-scc` the flag and
-- the code that the build generates.
pub record Env (Z Q : Type 0) : Type 0 where
  pub gmp : Gmp Z Q
  pub prog_functions : List Ptr
  pub run_scc : Bool
  pub run_compiled_scc : Ptr → List Ptr → Cmd (Heap Z Q) Ptr

module _ {Z Q : Type 0} where
  -- A command on the expressions alone.
  unfoldable pub mem : {A : Type 0} → Cmd (Heap Z Q) A → Cmd (Machine Z Q) A
  mem m s = elim (m s.heap) [ ok a h ↦ ok a (record s { heap = h }) | stop e ↦ stop e ]

-- `if (!r) return NULL`
abbrev pub unless_null : {S : Type 0} → Ptr → Cmd S Ptr → Cmd S Ptr
unless_null r next = if r == null then pure null else next
