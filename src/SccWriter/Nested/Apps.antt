-- ===== src/SccWriter/Nested/Apps.antt =====
-- Symbols, applications, CASE, DO, LET and FAIL of `write_code` keep the depth in braces.
use lfsc.Common.{ℕ, zero, suc, refl, Option, none, some, List, [], ◌∷◌, if◌then◌else◌}
use lfsc.Header.{is_prog}
use lfsc.Trie.{Key}
use lfsc.Heap.{Ptr, nth}
use lfsc.SccWriter.{
  Text, codes, Source, Opts, no_opts, WriteCode, get_var_name, has_name, prog_index,
}
use lfsc.SccWriter.Level.{
  Plain, Plain-append, AllPlain, IsClean, get_var_name-Plain, PlainRet, ret_mod-Plain,
  inc_text-Plain,
}
use lfsc.SccWriter.Nested.{
  Level, Writes-pure, Writes-if, Writes-bind, line-Writes, line-then, push_var-Level,
  get_vars-Level, add_global_sym-Level, look-Level,
}
use lfsc.SccWriter.Nested.Exprs.{
  IsSource, names-Plain, sym_name-Writes, KeepsLevel, write_expr-Names, write_exprs-Writes,
  write_dec-Level, write_decs-Level,
}
use lfsc.SccWriter.Matching.{
  commas, name_at, write_sym, write_fail, write_call, write_new_app, write_app, write_case_part,
  write_do, write_let,
}

commas-Plain : (es : List Text) → AllPlain es → Plain (commas es)
commas-Plain [] h = λ d. refl
commas-Plain (e ∷ []) h = h.0
commas-Plain (e ∷ e' ∷ es) h =
    Plain-append e _ h.0
      (Plain-append (codes ", ") (commas (e' ∷ es)) (λ d. refl) (commas-Plain (e' ∷ es) h.1))

pub name_at-Plain : (ns : List Key) (i : ℕ) → AllPlain ns → Plain (name_at ns i)
name_at-Plain [] i h = λ d. refl
name_at-Plain (n ∷ ns) zero h = h.0
name_at-Plain (n ∷ ns) (suc i) h = name_at-Plain ns i h.1

module _ {Z Q : Type 0} (src : Source Z Q) (v : IsSource src) where
  pub write_sym-Level :
      (a : ℕ) (s : Key) (ind : ℕ) (ret : Option Text)
      → IsClean s
      → PlainRet ret
      → Level a (write_sym src s ind ret)
  unfolding write_sym
  write_sym-Level a s ind ret c w =
      let name = get_var_name-Plain s c in
      Writes-bind (get_vars-Level a) λ vars _.
        Writes-bind
          (Writes-if (has_name s vars) (line-Writes _ _ refl (ret_mod-Plain ret w, (name, tt))) (
            line-then _ _ _ refl (ret_mod-Plain ret w, (name, tt))
              (add_global_sym-Level a (get_var_name s) name)))
          λ _ _. line-Writes _ _ refl (inc_text-Plain ret w, tt)

  pub write_fail-Level :
      (a ind : ℕ) (ret : Option Text) → PlainRet ret → Level a (write_fail src ind ret)
  unfolding write_fail
  write_fail-Level a ind ret w = line-Writes _ _ refl (ret_mod-Plain ret w, tt)

  module _ (f : ℕ) (rec : WriteCode) (h : KeepsLevel rec) where
    write_call-Level :
        (a : ℕ) (name : Key) (args : List Text) (ind : ℕ) (ret : Option Text)
        → Plain name
        → AllPlain args
        → PlainRet ret
        → Level a (write_call src f rec name args ind ret)
    unfolding write_call
    write_call-Level a name args ind ret n p w =
        line-then _ _ _ refl (ret_mod-Plain ret w, (n, (commas-Plain args p, tt)))
          (write_decs-Level a ind args p)

    write_new_app-Level :
        (a : ℕ) (hd : Ptr) (args : List Text) (ind : ℕ) (ret : Option Text)
        → AllPlain args
        → PlainRet ret
        → Level a (write_new_app src f rec hd args ind ret)
    unfolding write_new_app
    write_new_app-Level a hd args ind ret p w =
        Writes-bind (write_expr-Names src v rec h a hd ind no_opts)
          λ e q. line-Writes _ _ refl (ret_mod-Plain ret w, (q, (commas-Plain args p, tt)))

    pub write_app-Level :
        (a : ℕ) (code : Ptr) (ind : ℕ) (ret : Option Text)
        → PlainRet ret
        → Level a (write_app src f rec code ind ret)
    unfolding write_app
    write_app-Level a code ind ret w = Writes-bind (look-Level src a _) λ taken _.
        Writes-bind (write_exprs-Writes src v rec h a taken.0 ind) λ args p.
          Writes-bind (look-Level src a _) λ hd _.
            Writes-bind (look-Level src a _)
              λ o _. go hd args p (if is_prog o then prog_index 0 hd src.prog_ptrs else none)
      where
        go :
            (hd : Ptr) (args : List Text)
            → AllPlain args
            → (i : Option ℕ)
            → Level a (elim i [
              | none ↦ write_new_app src f rec hd args ind ret
              | some i ↦ write_call src f rec (name_at src.prog_names i) args ind ret
            ])
        go hd args p none = write_new_app-Level a hd args ind ret p w
        go hd args p (some i) =
            write_call-Level a _ args ind ret (name_at-Plain src.prog_names i (names-Plain src v)) p
              w

    pub write_case_part-Level :
        (a : ℕ) (ks : List Ptr) (ind : ℕ) (ret : Option Text) (opts : Opts)
        → PlainRet ret
        → Level a (write_case_part src f rec ks ind ret opts)
    unfolding write_case_part
    write_case_part-Level a ks ind ret opts w =
        Writes-if opts.case_body (h a _ ind ret no_opts w)
          (Writes-bind (look-Level src a _) λ hd _. h a hd ind ret no_opts w)

    pub write_do-Level :
        (a : ℕ) (ks : List Ptr) (ind : ℕ) (ret : Option Text)
        → PlainRet ret
        → Level a (write_do src f rec ks ind ret)
    unfolding write_do
    write_do-Level a [] ind ret w = Writes-pure a _ tt tt
    write_do-Level a (k ∷ []) ind ret w = h a k ind ret no_opts w
    write_do-Level a (k ∷ l ∷ ks) ind ret w =
        Writes-bind (write_expr-Names src v rec h a k ind no_opts)
          λ e p. Writes-bind (write_dec-Level a ind e p) λ _ _. write_do-Level a (l ∷ ks) ind ret w

    pub write_let-Level :
        (a : ℕ) (ks : List Ptr) (ind : ℕ) (ret : Option Text)
        → PlainRet ret
        → Level a (write_let src f rec ks ind ret)
    unfolding write_let
    write_let-Level a ks ind ret w = Writes-bind (sym_name-Writes src v a (nth ks 0)) λ s c.
        let name = get_var_name-Plain s c in
        line-then _ _ _ refl (name, tt)
          (Writes-bind (h a _ ind (some (get_var_name s)) no_opts name) λ _ _.
            Writes-bind (push_var-Level a s)
              λ _ _. Writes-bind (h a _ ind ret no_opts w) λ _ _. line-Writes _ _ refl (name, tt))
