-- ===== src/Eval/RowNames.antt =====
-- The columns of the rows that the relational mode gives, dogwood-language/src/interpreter/eval.rs.
use dogwood.Prelude.{
  ℕ, Bool, true, false, Option, none, some, [], ◌∷◌, Str, str_eq, All-append, if◌then◌else◌,
}
use dogwood.Prelude.Options
use dogwood.Prelude.Panics.{Ensures}
use dogwood.Value.{Value, dom_eq}
use dogwood.Event.{Trace}
use dogwood.Ast.{Condition}
use dogwood.Rows.{Env, Row, drop_column, join_into, join_rows, join_column, find_column}
use dogwood.Eval.{match_occurrences}
use dogwood.RequestEnv.Keys.{IsIdentifier}
use dogwood.Eval.Names.{HasIdentifiers, Named, AllNamed, OptionNamed, match_predicate-Named}
use dogwood.Eval.RowInvariant.{IsKept, match_occurrences-Each}

drop_column-Named : (n : Str) (row : Row) → Named row → Named (drop_column n row)
unfolding drop_column
drop_column-Named n [] h = tt
drop_column-Named n ((k, v) ∷ row) h = drop (str_eq k n) (drop_column-Named n row h.1)
  where
    drop :
        (b : Bool)
        → Named (drop_column n row)
        → Named (if b then drop_column n row else (k, v) ∷ drop_column n row)
    drop true ih = ih
    drop false ih = (h.0, ih)

join_column-Named :
    (o : Option Value) (out : Row) (k : Str) (v : Value)
    → IsIdentifier k
    → Named out
    → OptionNamed (join_column o out k v)
join_column-Named none out k v h n =
    All-append (λ (c : Str × Value). IsIdentifier c.0) out ((k, v) ∷ []) n (h, tt)
join_column-Named (some w) out k v h n = kept (dom_eq w v)
  where
    kept : (b : Bool) → OptionNamed (if b then some out else none)
    kept true = n
    kept false = tt

join_into-Named : (b out : Row) → Named out → Named b → OptionNamed (join_into out b)
unfolding join_into
join_into-Named [] out h k = h
join_into-Named ((j, v) ∷ b) out h k =
    joined (join_column (find_column out j) out j v)
      (join_column-Named (find_column out j) out j v k.0 h)
      (λ out' h'. join_into-Named b out' h' k.1)
  where
    joined :
        (o : Option Row)
        → OptionNamed o
        → ((out' : Row) → Named out' → OptionNamed (join_into out' b))
        → OptionNamed (Options.◌>>=◌ o (λ out'. join_into out' b))
    joined none h ih = tt
    joined (some r) h ih = ih r h

Named-IsKept : IsKept Named
unfolding join_rows
Named-IsKept = record {
  empty = tt;
  single = λ n v h. (h, tt);
  dropped = drop_column-Named;
  joined = λ a b h k. join_into-Named b a h k;
  matched = match_predicate-Named;
}

-- Every column of a row is an identifier of the grammar.
pub match_occurrences-AllNamed :
    (c : Condition) (t : Trace) (i : ℕ) (env : Env)
    → HasIdentifiers c
    → Ensures AllNamed (match_occurrences t i env c)
match_occurrences-AllNamed c t i env h = match_occurrences-Each Named Named-IsKept c t i env h
