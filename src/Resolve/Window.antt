-- ===== src/Resolve/Window.antt =====
-- `in_window` of dogwood-language/src/interpreter/eval.rs.
use dogwood.Prelude.{ℕ, ◌≡◌, ◌&&◌, arith}
use dogwood.Prelude.Panics.{value}
use dogwood.Int.{ℤ, pos, ◌-ℤ◌, ◌≤ℤ◌, leb_ℤ, clamp_i64, saturating_sub}
use dogwood.Event.{Trace, trace_ts}
use dogwood.Ast.{Interval, interval_seconds}
use dogwood.Resolve.{in_window}

clamped_window :
    (d s : ℤ)
    → s ≤ℤ pos 9223372036854775806
    → (leb_ℤ (pos 0) (clamp_i64 d) && leb_ℤ (clamp_i64 d) s) ≡ (leb_ℤ (pos 0) d && leb_ℤ d s)
unfolding clamp_i64
clamped_window d s h = ground arith

-- At two timepoints of the trace, with a window below the largest `i64`, `in_window` tells whether
-- the exact difference of the two timestamps lies between 0 and the length of the window, ends
-- included.
pub in_window-exact :
    (t : Trace) (i j : ℕ) (w : Interval) (now before : ℤ)
    → trace_ts t i ≡ value now
    → trace_ts t j ≡ value before
    → interval_seconds w ≤ℤ pos 9223372036854775806
    → in_window t i j w
      ≡ value (leb_ℤ (pos 0) (now -ℤ before) && leb_ℤ (now -ℤ before) (interval_seconds w))
unfolding in_window saturating_sub
in_window-exact t i j w now before p q h =
    rw (p, q, clamped_window (now -ℤ before) (interval_seconds w) h)
