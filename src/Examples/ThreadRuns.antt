-- ===== src/Examples/ThreadRuns.antt =====
-- Runs of ncThread in the WIN32 build on a system that counts its open handles.
use netclass.Common.{ℕ, suc, pos, minus_one, ◌-◌, List, [], ◌∷◌}
use netclass.Thread.Defs.{NcThread}
use netclass.Thread.Win32.{Win32Os, Task, starts, joins, detaches, tests_cancel, exits, stops}

abbrev windows : Win32Os ℕ ℕ
windows = record {
  wait_failed = minus_one;
  create = λ fn a w. (7, suc w);
  wait = λ h w. (pos 0, w);
  terminate = λ h status w. w;
  close_handle = λ h w. w - 1;
}

-- Three clients one after the other.
abbrev three_clients : List (Task windows)
three_clients =
    starts 1 10
    ∷ detaches
    ∷ starts 1 11
    ∷ joins
    ∷ starts 1 12
    ∷ tests_cancel
    ∷ stops (pos 0)
    ∷ exits
    ∷ []

abbrev blank : NcThread
blank = record { ret_val = 0; handle = 0 }
