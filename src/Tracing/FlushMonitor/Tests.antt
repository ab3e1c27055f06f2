-- ===== src/Tracing/FlushMonitor/Tests.antt =====
-- Concrete ticks of the flush monitor.
use micromegas.Prelude.{pos, true, false, List, [], ◌∷◌, none, some, arith}
use micromegas.Tracing.FlushMonitor.{Tick, new_monitor, flushes, AreSpaced, flushes-AreSpaced}

abbrev four_ticks : List Tick
four_ticks =
    record { now = 30; later = 30; sink = some false }
    ∷ record { now = 70; later = 71; sink = some false }
    ∷ record { now = 131; later = 131; sink = some true }
    ∷ record { now = 140; later = 140; sink = none }
    ∷ []

flushes-AreSpaced_example : AreSpaced 60 10 (flushes four_ticks (new_monitor (pos 10) (pos 60)))
flushes-AreSpaced_example = flushes-AreSpaced 60 (omega arith) four_ticks 10 (
  omega arith,
  (
    omega arith,
    (
      omega arith,
      (
        omega arith,
        (
          omega arith,
          (
            omega arith,
            (
              omega arith,
              (omega arith, (omega arith, (omega arith, (omega arith, (omega arith, tt))))),
            ),
          ),
        ),
      ),
    ),
  ),
)
