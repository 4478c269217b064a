-- ===== src/File/Retains.antt =====
-- The commands "program" and "function" leave every name alone that stands for an expression.
pub mod Params
pub mod Program
use lfsc.Common.{
  ℕ, zero, suc, Bool, true, false, not, ◌≡◌, refl, sym, ap, ◌∙◌, Option, none, some, List, [], ◌∷◌,
  ◌==◌, if◌then◌else◌, list_eq, eq_of_list_eq, Bool-cases, inl, inr,
}
use lfsc.Trie.{Key}
use lfsc.Heap.{Ptr, null, Cmd, pure, and_then, Outcome}
use lfsc.Heap.Returns
use lfsc.Heap.Returns.{Ensures, ensures, stops}
use lfsc.Lexer.{Token, same_token}
use lfsc.Code.Symbols.{Binding, unbound, get_symbol}
use lfsc.Session.{Session, Config, bind_symbol, typed, require}
use lfsc.Session.Stable.{
  look, Valid, Has, Stable, Stable-pure, Stable-gets, Stable-if, Stable-scan, Stable-mem,
  Stable-modify, Stable-bind,
}
use lfsc.Session.Scoped.{Bound, bind_symbol-Bound}
use lfsc.Read.Stable.{require-Stable, new_sym-Stable, get_symbol-Stable}
use lfsc.File.Program.{Param, remove_params, read_params}

-- A name that stands for no expression.
pub record IsFree (B : Key → Option Binding) (id : Key) : Type 0 where
  pub free : (b : Binding) → B id ≡ some b → (b.0 == null) ≡ true

pub data AllFree (B : Key → Option Binding) : List Param → Type 0 where
  no_more : AllFree B []
  one_more : {p : Param} {ps : List Param} → IsFree B p.0 → AllFree B ps → AllFree B (p ∷ ps)

module _ {Z Q : Type 0} where
  -- A well-formed table that has the bindings of `B` with an expression.
  pub record Retains (B : Key → Option Binding) (t : Session Z Q) : Type 0 where
    pub valid : Valid t
    pub retains : (k : Key) (b : Binding) → B k ≡ some b → (b.0 == null) ≡ false → look t k ≡ some b

  Retains-Has :
      {B : Key → Option Binding} {t u : Session Z Q} → Retains B t → Has (look t) u → Retains B u
  Retains-Has r h = record { valid = h.valid; retains = λ k b e n. h.agree k ∙ r.retains k b e n }

  Retains-trans :
      {B : Key → Option Binding} {t u : Session Z Q}
      → Retains B t
      → Retains (look t) u
      → Retains B u
  Retains-trans r q = record {
    valid = q.valid;
    retains = λ k b e n. q.retains k b (r.retains k b e n) n;
  }

  -- What is free later was free before.
  IsFree-back :
      {B : Key → Option Binding} {t : Session Z Q} {id : Key}
      → Retains B t
      → IsFree (look t) id
      → IsFree B id
  IsFree-back {id} r q = record {
    free = λ b e. elim (Bool-cases (b.0 == null)) [
      | inl y ↦ y
      | inr n ↦ q.free b (r.retains id b e n)
    ];
  }

  AllFree-back :
      {B : Key → Option Binding} {t : Session Z Q} {ps : List Param}
      → Retains B t
      → AllFree (look t) ps
      → AllFree B ps
  AllFree-back r no_more = no_more
  AllFree-back r (one_more q qs) = one_more (IsFree-back r q) (AllFree-back r qs)

  -- Binding a free name.
  bind-Retains :
      {B : Key → Option Binding} {s : Session Z Q} {id : Key} {new : Binding}
      → Retains B s
      → IsFree B id
      → (r : Bound s id new) → Retains B r.after
  bind-Retains {id} r q w = record {
    valid = w.valid;
    retains = λ k b e n. elim (Bool-cases (list_eq id k)) [
      | inl y ↦ absurd (let z : id ≡ k = eq_of_list_eq id k y in let t = q.free b (rw z e) in cc)
      | inr m ↦ w.now k ∙ rw m (r.retains k b e n)
    ];
  }

  remove_run :
      {B : Key → Option Binding} (ps : List Param) (s : Session Z Q)
      → Retains B s
      → AllFree B ps
      → Ensures (λ _ t. Retains B t) (remove_params ps s)
  unfolding remove_params
  remove_run [] s r q = ensures r
  remove_run ((id, v, tp) ∷ ps) s r (one_more q qs) =
      let w = bind_symbol-Bound s id unbound r.valid in
      rw w.returns (remove_run ps w.after (bind-Retains r q w) qs)
