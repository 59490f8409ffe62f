-- ===== src/Examples/SectionRuns.antt =====
-- A run of ncMutex in the WIN32 build.
use netclass.Common.{
  ℕ, zero, suc, ℤ, pos, ◌+◌, refl, true, Option, none, some, arith, ◌==◌, if◌then◌else◌,
}
use netclass.Mutex.Defs.{CriticalSection, NcMutex, win32_create, win32_lock, win32_unlock}
use netclass.Mutex.Section.{
  EntryContract, Calls, fresh, call, locks, unlocks_inner, free, own, Says, Calls-Says,
}

-- A critical section: the thread that is in it, and how often it has entered it again.
abbrev enter_if_free : ℕ → Option (ℕ × ℕ) → ℤ × Option (ℕ × ℕ)
enter_if_free t none = (pos 1, some (t, 0))
enter_if_free t (some (u, k)) = if t == u then (pos 1, some (u, k + 1)) else (pos 0, some (u, k))

abbrev leave_once : Option (ℕ × ℕ) → Option (ℕ × ℕ)
leave_once none = none
leave_once (some (u, zero)) = none
leave_once (some (u, suc k)) = some (u, k)

abbrev section : CriticalSection (Option (ℕ × ℕ))
section = record {
  initialize = λ n. none;
  delete = λ n. none;
  enter = λ t n. (enter_if_free t n).1;
  try_enter = enter_if_free;
  leave = λ t n. leave_once n;
}

abbrev entered : Option (ℕ × ℕ) → Option (ℕ × ℕ)
entered n = n

section-EntryContract : EntryContract section entered
section-EntryContract = record {
  starts_free = λ raw. refl;
  enters = λ t n e. ground arith;
  enters_again = λ t k n e. ground arith;
  tries = λ t n e. ground arith;
  tries_again = λ t k n e. ground arith;
  try_fails = λ t u k n ne e. ground arith;
  leaves = λ t n e. ground arith;
  leaves_inner = λ t k n e. ground arith;
}

-- Thread 1 locks the mutex twice and unlocks it once.
abbrev once_more : NcMutex (Option (ℕ × ℕ))
once_more =
    win32_unlock section 1 (win32_lock section 1 (win32_lock section 1 (win32_create section none)))

nested : Calls section entered none true once_more
unfolding win32_create win32_lock
nested =
    call (call (call fresh (locks 1 (free refl))) (locks 1 (own 0 refl))) (unlocks_inner 1 0 refl)

Calls-Says_example : Says section entered once_more true
Calls-Says_example = Calls-Says section entered section-EntryContract nested
