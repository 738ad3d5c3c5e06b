-- ===== src/Relativize.antt =====
-- Pin relativization, dogwood-language/src/event_schema/relativize.rs: the rewrite that confines a
-- condition to the events that agree with the request on the pins of every event kind. The counter of
-- fresh names is passed on; the `expect` on the kinds of the schema is a panic.
mod Universal
mod Encode
pub mod Foreign
pub mod Removal
pub mod Mine
pub mod Shared
pub mod Same
pub mod Guard
pub mod Guarded
pub mod Rewritten
pub mod Local
pub mod Confinement
use dogwood.Prelude.{ℕ, List, [], ◌∷◌, if◌then◌else◌}
use dogwood.Prelude.Panics.{Exec, value, ◌>>=◌, map_exec}
use dogwood.Pins.{DerivedEvent}
use dogwood.Ast
use dogwood.Ast.{
  Condition, and, or, formerly, previous, since, predicate, comparison, exists, tp, call, sigil_ref,
  refine, Term, agg, Terms, no_terms, item, AggExpr, sum, count, agg_call,
}
unfoldable pub use Universal.*
unfoldable pub use Encode.*

module _ (pins : List UniversalPin) (schema : List DerivedEvent) where
  unfoldable mutual
    -- The condition and the next fresh number.
    pub rewrite : Condition → ℕ → Exec (Condition × ℕ)
    rewrite (and l r) n = do (l', a) ← rewrite l n; (r', b) ← rewrite r a; value (and l' r', b)
    rewrite (or l r) n = do (l', a) ← rewrite l n; (r', b) ← rewrite r a; value (or l' r', b)
    rewrite (Condition.not c) n = do (c', a) ← rewrite c n; value (Condition.not c', a)
    rewrite (exists x c) n = do (c', a) ← rewrite c n; value (exists x c', a)
    rewrite (comparison op l r) n = do
      (l', a) ← rewrite_term l n
      (r', b) ← rewrite_term r a
      value (comparison op l' r', b)
    rewrite (formerly within c) n = do
      (c', a) ← rewrite c n
      guarded ← guard_mine pins schema c'
      value (formerly within guarded, a)
    rewrite (previous within c) n = do
      (c', a) ← rewrite c n
      guarded ← guard_mine pins schema c'
      encode_previous pins schema within guarded a
    -- On the fast path the rewritten left side is the negation of the rewritten condition.
    rewrite (since l within r) n = do
      (r', a) ← rewrite r n
      anchor ← guard_mine pins schema r'
      (l', b) ← rewrite l a
      if is_confined_negation l
          then value (since l' within anchor, b)
          else encode_since pins schema l' within anchor b
    rewrite (predicate p) n = value (predicate p, n)
    rewrite (tp x) n = value (tp x, n)
    rewrite (call c) n = value (call c, n)
    rewrite (sigil_ref s x) n = value (sigil_ref s x, n)
    rewrite (refine c fs) n = do (c', a) ← rewrite c n; value (refine c' fs, a)

    pub rewrite_term : Term → ℕ → Exec (Term × ℕ)
    rewrite_term (agg e) n = do (e', a) ← rewrite_agg e n; value (agg e', a)
    rewrite_term (Term.array ts) n = do (ts', a) ← rewrite_terms ts n; value (Term.array ts', a)
    rewrite_term t n = value (t, n)

    pub rewrite_terms : Terms → ℕ → Exec (Terms × ℕ)
    rewrite_terms no_terms n = value (no_terms, n)
    rewrite_terms (item t ts) n = do
      (t', a) ← rewrite_term t n
      (ts', b) ← rewrite_terms ts a
      value (item t' ts', b)

    pub rewrite_agg : AggExpr → ℕ → Exec (AggExpr × ℕ)
    rewrite_agg (sum x vs c) n = do (c', a) ← rewrite c n; value (sum x vs c', a)
    rewrite_agg (count vs c) n = do (c', a) ← rewrite c n; value (count vs c', a)
    rewrite_agg (agg_call c) n = value (agg_call c, n)

unfoldable pub relativize_condition :
    Condition → List DerivedEvent → List UniversalPin → Exec Condition
relativize_condition cond schema [] = value cond
relativize_condition cond schema (p ∷ pins) = map_exec (λ r. r.0) (rewrite (p ∷ pins) schema cond 0)
