-- ===== src/Ast.antt =====
-- The temporal sub-language, dogwood-language/src/extension/temporal/ast.rs. Source spans, which no
-- evaluation reads, are left out.
use dogwood.Prelude.{Bool, List, Str, split}
use dogwood.Prelude.Panics.{Exec, value, panic}
use dogwood.Int.{ℤ, pos, saturating_mul, checked, ◌*ℤ◌}
use dogwood.Prelude.{Option}

pub data TimeUnit : Type 0 where
  seconds minutes hours days : TimeUnit

unfoldable pub unit_seconds : TimeUnit → ℤ
unit_seconds seconds = pos 1
unit_seconds minutes = pos 60
unit_seconds hours = pos 3600
unit_seconds days = pos 86400

pub record Interval : Type 0 where
  pub amount : ℤ
  pub unit : TimeUnit

-- `Interval::seconds`
unfoldable pub interval_seconds : Interval → ℤ
interval_seconds w = saturating_mul w.amount (unit_seconds w.unit)

-- `Interval::checked_seconds`
unfoldable pub checked_seconds : Interval → Option ℤ
checked_seconds w = checked (w.amount *ℤ unit_seconds w.unit)

pub data WithinSpec : Type 0 where
  concrete : Interval → WithinSpec
  within_param : Str → WithinSpec

-- A macro parameter that is left after expansion is a panic.
unfoldable pub within_interval : WithinSpec → Exec Interval
within_interval (concrete w) = value w
within_interval (within_param p) = panic

pub data CmpOp : Type 0 where
  le lt ge gt eq not_eq : CmpOp

pub data ArithOp : Type 0 where
  add sub mul : ArithOp

pub data Sigil : Type 0 where
  param binder : Sigil

pub data BinderSlot : Type 0 where
  name : Str → BinderSlot
  slot_param : Str → BinderSlot
  slot_binder : Str → BinderSlot

unfoldable pub slot_name : BinderSlot → Exec Str
slot_name (name s) = value s
slot_name (slot_param p) = panic
slot_name (slot_binder b) = panic

-- `Type` of the source.
pub data BinderType : Type 0 where
  timepoint : BinderType
  named : List Str → BinderType

pub record TypedBinder : Type 0 where
  pub slot : BinderSlot
  pub ty : BinderType

unfoldable pub binder_name : TypedBinder → Exec Str
binder_name v = slot_name v.slot

mutual
  pub data Condition : Type 0 where
    and : Condition → Condition → Condition
    or : Condition → Condition → Condition
    not : Condition → Condition
    formerly : WithinSpec → Condition → Condition
    previous : WithinSpec → Condition → Condition
    since : Condition → WithinSpec → Condition → Condition
    predicate : Predicate → Condition
    comparison : CmpOp → Term → Term → Condition
    exists : TypedBinder → Condition → Condition
    tp : BinderSlot → Condition
    call : Call → Condition
    sigil_ref : Sigil → Str → Condition
    refine : Condition → NamedArgs → Condition

  -- Namespace, action, kind and arguments.
  pub data Predicate : Type 0 where
    pred : List Str → Str → Str → NamedArgs → Predicate

  pub data NamedArgs : Type 0 where
    no_args : NamedArgs
    arg : Str → Term → NamedArgs → NamedArgs

  pub data Term : Type 0 where
    entity : Str → Str → Term
    integer : ℤ → Term
    decimal : Str → Term
    string : Str → Term
    bool : Bool → Term
    context_field : List Str → Term
    scope_field : List Str → Term
    var : Str → Term
    wildcard : Term
    array : Terms → Term
    agg : AggExpr → Term
    arithmetic : ArithOp → Term → Term → Term
    param_ref : Str → Term
    binder_ref : Str → Term

  pub data Terms : Type 0 where
    no_terms : Terms
    item : Term → Terms → Terms

  pub data AggExpr : Type 0 where
    sum : BinderSlot → List TypedBinder → Condition → AggExpr
    count : List TypedBinder → Condition → AggExpr
    agg_call : Call → AggExpr

  pub data Call : Type 0 where
    invoke : Str → CallArgs → Call

  pub data CallArgs : Type 0 where
    no_call_args : CallArgs
    condition_arg : Condition → CallArgs → CallArgs
    within_arg : Interval → CallArgs → CallArgs
    term_arg : Term → CallArgs → CallArgs

-- `NamedArg::field_path`: the segments of the dotted name.
unfoldable pub arg_path : Str → List Str
arg_path s = split b'.' s

unfoldable pub append_args : NamedArgs → NamedArgs → NamedArgs
append_args no_args bs = bs
append_args (arg n t rest) bs = arg n t (append_args rest bs)
