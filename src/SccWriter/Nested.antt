-- ===== src/SccWriter/Nested.antt =====
-- Commands that write text which starts at one depth in braces and ends at another, and the rules by
-- which they are put together.
pub mod Apps
pub mod Code
pub mod Exprs
pub mod Functions
pub mod Matching
pub mod Numbers
pub mod Output
pub mod Tests
use lfsc.Common.{
  ℕ, zero, suc, ◌+◌, ◌≡◌, refl, ◌∙◌, Bool, true, false, Option, none, some, List, [], ◌∷◌, ◌++◌,
  Bool-cases, inl, inr, if◌then◌else◌,
}
use lfsc.Trie.{Key}
use lfsc.Heap.{Ptr, Stop, Heap, Outcome, ok, stop, Cmd, pure, halt, and_then}
use lfsc.Heap.Returns
use lfsc.Heap.Returns.{Ensures, ensures, stops}
use lfsc.SccWriter.{
  Text, codes, Piece, lit, var, text_of, Source, Writer, decimal, spaces, has_name, indent, say,
  line, push_var, add_global_sym, get_vars, get_program, new_expr, new_rnum, next_args, look,
}
use lfsc.SccWriter.Level.{
  level, levels, level-append, level-text_of, Plain, Plain-append, AllPlain, PlainVars,
  spaces-Plain, decimal-Plain, IsNested,
}

-- The symbols that were collected are plain, and the text stands at the depth.
pub record At (a : ℕ) (s : Writer) : Type 0 where
  pub depth : level (some 0) s.out ≡ some a
  pub syms : AllPlain s.global_syms

pub record Writes (a b : ℕ) {A : Type 0} (P : A → Type 0) (m : Cmd Writer A) : Type 0 where
  pub run : (s : Writer) → At a s → Ensures (λ x t. P x × At b t) (m s)

-- The depth at the end is that at the start.
abbrev pub Level : ℕ → {A : Type 0} → Cmd Writer A → Type 0
Level a m = Writes a a (λ _. Unit {0}) m

-- And the result is a plain text.
abbrev pub Names : ℕ → Cmd Writer Text → Type 0
Names a m = Writes a a Plain m

module _ {A : Type 0} where
  pub Writes-pure : (a : ℕ) (P : A → Type 0) (x : A) → P x → Writes a a P (pure x)
  Writes-pure a P x p = record { run = λ s h. ensures (p, h) }

  pub Writes-halt : (a b : ℕ) (P : A → Type 0) (e : Stop) → Writes a b P (halt e)
  Writes-halt a b P e = record { run = λ s h. stops }

  pub Writes-if :
      {a b : ℕ} {P : A → Type 0} (c : Bool) {m n : Cmd Writer A}
      → Writes a b P m
      → Writes a b P n
      → Writes a b P (if c then m else n)
  Writes-if true p q = p
  Writes-if false p q = q

module _ {A B : Type 0} where
  pub Writes-bind :
      {a b c : ℕ} {P : A → Type 0} {R : B → Type 0} {m : Cmd Writer A} {k : A → Cmd Writer B}
      → Writes a b P m
      → ((x : A) → P x → Writes b c R (k x))
      → Writes a c R (λ s. and_then (m s) k)
  Writes-bind p q = record { run = λ s h. Returns.bind (p.run s h) λ x t r. (q x r.0).run t r.1 }

pub say-Writes :
    {a b : ℕ} (ps : List Piece)
    → levels (some a) ps ≡ some b
    → PlainVars ps
    → Writes a b (λ _. Unit {0}) (say ps)
unfolding say
say-Writes {a} ps e p = record {
  run = λ s h. ensures (
    tt,
    record {
      depth =
          level-append (some 0) s.out (text_of ps) ∙ rw h.depth (level-text_of (some a) ps p ∙ e);
      syms = h.syms;
    },
  );
}

pub indent-Level : (a ind : ℕ) → Level a (indent ind)
unfolding indent
indent-Level a ind = say-Writes (var (spaces ind) ∷ []) refl (spaces-Plain ind, tt)

pub line-Writes :
    {a b : ℕ} (ind : ℕ) (ps : List Piece)
    → levels (some a) ps ≡ some b
    → PlainVars ps
    → Writes a b (λ _. Unit {0}) (line ind ps)
unfolding line
line-Writes {a} ind ps e p =
    Writes-bind (indent-Level a ind)
      λ _ _. Writes-bind (say-Writes ps e p) λ _ _. say-Writes (lit "\n" ∷ []) refl tt

module _ {B : Type 0} where
  -- A line, and what follows.
  pub line-then :
      {a b c : ℕ} {R : B → Type 0} (ind : ℕ) (ps : List Piece) (k : Unit {0} → Cmd Writer B)
      → levels (some a) ps ≡ some b
      → PlainVars ps
      → Writes b c R (k tt)
      → Writes a c R (λ s. and_then (line ind ps s) k)
  line-then ind ps k e p q = Writes-bind (line-Writes ind ps e p) λ _ _. q

-- Commands that write nothing.
pub push_var-Level : (a : ℕ) (n : Key) → Level a (push_var n)
unfolding push_var
push_var-Level a n = record { run = λ s h. ensures (tt, record { depth = h.depth; syms = h.syms }) }

pub get_vars-Level : (a : ℕ) → Level a get_vars
unfolding get_vars
get_vars-Level a = record { run = λ s h. ensures (tt, h) }

pub get_program-Level : (a : ℕ) → Level a get_program
unfolding get_program
get_program-Level a = record { run = λ s h. ensures (tt, h) }

pub next_args-Level : (a : ℕ) → Level a next_args
unfolding next_args
next_args-Level a = record { run = λ s h. ensures (tt, record { depth = h.depth; syms = h.syms }) }

pub new_expr-Names : (a : ℕ) → Names a new_expr
unfolding new_expr
new_expr-Names a = record {
  run =
      λ s h. ensures (λ d. decimal-Plain s.expr_count d, record { depth = h.depth; syms = h.syms });
}

pub new_rnum-Names : (a : ℕ) → Names a new_rnum
unfolding new_rnum
new_rnum-Names a = record {
  run =
      λ s h. ensures (λ d. decimal-Plain s.rnum_count d, record { depth = h.depth; syms = h.syms });
}

AllPlain-snoc : (ts : List Text) (t : Text) → AllPlain ts → Plain t → AllPlain (ts ++ t ∷ [])
AllPlain-snoc [] t h p = (p, tt)
AllPlain-snoc (u ∷ ts) t h p = (h.0, AllPlain-snoc ts t h.1 p)

pub add_global_sym-Level : (a : ℕ) (n : Key) → Plain n → Level a (add_global_sym n)
unfolding add_global_sym
add_global_sym-Level a n p = record {
  run = λ s h.
      Returns.Ensures-if (has_name n s.global_syms) (ensures (tt, h))
        (ensures (tt, record { depth = h.depth; syms = AllPlain-snoc s.global_syms n h.syms p }));
}

module _ {Z Q A : Type 0} (src : Source Z Q) where
  look_run :
      (a : ℕ) (s : Writer) (o : Outcome (Heap Z Q) A) (P : A → Type 0)
      → At a s
      → Ensures (λ x _. P x) o
      → Ensures {A = A} (λ x t. P x × At a t) (elim o [ ok x h ↦ ok x s | stop e ↦ stop e ])
  look_run a s (ok x h) P g (ensures p) = ensures (p, g)
  look_run a s (stop e) P g stops = stops

  pub look-Writes :
      (a : ℕ) (m : Cmd (Heap Z Q) A) (P : A → Type 0)
      → Ensures (λ x _. P x) (m src.heap)
      → Writes a a P (look src m)
  unfolding look
  look-Writes a m P e = record { run = λ s h. look_run a s (m src.heap) P h e }

  any_result : (o : Outcome (Heap Z Q) A) → Ensures (λ _ _. Unit {0}) o
  any_result (ok x h) = ensures tt
  any_result (stop e) = stops

  pub look-Level : (a : ℕ) (m : Cmd (Heap Z Q) A) → Level a (look src m)
  look-Level a m = look-Writes a m _ (any_result (m src.heap))
