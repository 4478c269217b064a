-- ===== src/File/Retains/Program.antt =====
-- The parts of a program, after its variables.
use lfsc.Common.{ℕ, Bool, refl, Option, List, [], ◌∷◌}
use lfsc.Trie.{Key}
use lfsc.Heap.{Ptr, Cmd, and_then}
use lfsc.Heap.Returns
use lfsc.Heap.Returns.{Ensures, ensures, stops}
use lfsc.Code.Check.Scoped.{check_code-Safe}
use lfsc.Code.Symbols.{Binding}
use lfsc.Session.{Session, Config}
use lfsc.Session.Stable.{
  look, Valid, Stable, Stable-pure, Stable-gets, Stable-if, Stable-scan, Stable-mem, Stable-modify,
  Stable-typed, Stable-bind,
}
use lfsc.Read.Stable.{require-Stable, new_sym-Stable, read_code-Stable}
use lfsc.Term.{Ask, Rec}
use lfsc.Term.Stable.{IsLocal, creates, eat_excess-Stable, new_pi-Stable, must_equal-Stable}
use lfsc.Term.Stable.Types.{check-Stable}
use lfsc.File.Program.{Param, new_program, program_type, return_type, program_body, program}
use lfsc.File.Retains.{AllFree, no_more, Retains, Retains-Has, remove_run}
use lfsc.File.Retains.Params.{Binds, Retains-self, later, must_be_data-Stable, read_params-Binds}

module _ {Z Q : Type 0} where
  module _ (f : ℕ) (rec : Rec Z Q) (h : (a : Ask) → IsLocal a → Stable (rec a)) where
    return_type-Stable : (cfg : Config Z Q) → Stable (return_type cfg f rec)
    unfolding return_type
    return_type-Stable cfg = Stable-bind (Stable-mem _) λ _. Stable-bind (Stable-gets _) λ n.
        Stable-bind (h _ (creates refl)) λ r.
          Stable-bind (eat_excess-Stable n)
            λ _. Stable-bind (must_be_data-Stable f r.term) λ _. Stable-pure _

  new_program-Stable : (id : Key) (p : Ptr) (c : Bool) → Stable (new_program {Z = Z} {Q = Q} id p c)
  unfolding new_program
  new_program-Stable id p c = Stable-bind (Stable-gets _) λ known.
      Stable-bind (require-Stable _) λ _.
        Stable-bind (Stable-modify _ λ s. refl)
          λ _. Stable-if c (Stable-modify _ λ s. refl) (Stable-pure tt)

  program_type-Stable :
      (f : ℕ) (ps : List Param) (ret : Ptr) → Stable (program_type {Z = Z} {Q = Q} f ps ret)
  unfolding program_type
  program_type-Stable f [] ret = Stable-pure ret
  program_type-Stable f ((id, v, tp) ∷ ps) ret =
      Stable-bind (program_type-Stable f ps ret)
        λ r. Stable-bind (Stable-mem _) λ _. new_pi-Stable f v tp r

  -- The command removes the names `ps`, which are free.
  record Frees (ps : List Param) {A : Type 0} (m : Cmd (Session Z Q) A) : Type 0 where
    run :
        (B : Key → Option Binding) (s : Session Z Q)
        → Retains B s
        → AllFree B ps
        → Ensures (λ _ t. Retains B t) (m s)

  module _ {A : Type 0} where
    Stable-Retains :
        {B : Key → Option Binding} {s : Session Z Q} {m : Cmd (Session Z Q) A}
        → Stable m
        → Retains B s
        → Ensures (λ _ t. Retains B t) (m s)
    Stable-Retains {s} p r = Returns.mono (p.run s r.valid) λ a t h. Retains-Has r h

    Frees-step :
        {C : Type 0} {ps : List Param} {m : Cmd (Session Z Q) A} {k : A → Cmd (Session Z Q) C}
        → Stable m
        → ((a : A) → Frees ps (k a))
        → Frees ps (λ s. and_then (m s) k)
    Frees-step p q = record {
      run = λ B s r w. Returns.bind (Stable-Retains p r) λ a t z. (q a).run B t z w;
    }

  Frees-and_then :
      {A : Type 0} {m : Cmd (Session Z Q) (List Param)} {k : List Param → Cmd (Session Z Q) A}
      → Binds m
      → ((ps : List Param) → Frees ps (k ps))
      → Frees [] (λ s. and_then (m s) k)
  Frees-and_then p q = record {
    run = λ B s r _.
        Returns.bind (p.run s r.valid) λ ps t w. let z = later r w in (q ps).run B t z.0 z.1;
  }

  program_body-Frees :
      (cfg : Config Z Q) (f : ℕ) (id : Key) (prog : Ptr) (ps : List Param) (ret code : Ptr)
      → Frees ps (program_body cfg f id prog ps ret code)
  unfolding program_body
  program_body-Frees cfg f id prog ps ret code = Frees-step (program_type-Stable f ps ret) λ tp.
      Frees-step (Stable-mem _) λ sketch. Frees-step (Stable-mem _) λ _.
        Frees-step (Stable-typed (check_code-Safe cfg.gmp f code)) λ body_tp.
          Frees-step (must_equal-Stable cfg.gmp f body_tp ret) λ _.
            Frees-step (Stable-mem _) λ vars. Frees-step (Stable-mem _) λ body.
              Frees-step (Stable-if cfg.compile_scc (Stable-modify _ λ s. refl) (Stable-pure tt))
                λ _. record {
                  run = λ B s r w.
                      Returns.bind (remove_run ps s r w) λ _ t z. Stable-Retains (Stable-mem _) z;
                }

  program-Frees : (cfg : Config Z Q) (f : ℕ) (cached : Bool) → Frees [] (program cfg f cached)
  unfolding program
  program-Frees cfg f cached = Frees-step (Stable-scan _) λ id.
      Frees-step (new_sym-Stable id) λ prog. Frees-step (new_program-Stable id prog cached) λ _.
        Frees-step (Stable-scan _) λ _.
          Frees-and_then (read_params-Binds f _ (check-Stable cfg f) f) λ ps.
            Frees-step (require-Stable _) λ _.
              Frees-step (return_type-Stable f _ (check-Stable cfg f) cfg) λ ret.
                Frees-step (read_code-Stable cfg.gmp f)
                  λ code. program_body-Frees cfg f id prog ps ret code

  -- The commands "program" and "function", if they end without an error, leave a well-formed table
  -- in which every name that stood for an expression has the binding that it had before.
  pub program-Retains :
      (cfg : Config Z Q) (f : ℕ) (cached : Bool) (s : Session Z Q)
      → Valid s
      → Ensures (λ _ t. Retains (look s) t) (program cfg f cached s)
  program-Retains cfg f cached s v =
      (program-Frees cfg f cached).run (look s) s (Retains-self s v) no_more
