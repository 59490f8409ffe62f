-- ===== src/Examples/MutexRuns.antt =====
-- Runs of ncMutex over a native mutex whose state is the thread that holds it.
use netclass.Common.{ℕ, ℤ, pos, ◌≡◌, refl, List, [], ◌∷◌, Option, none, some, arith}
use netclass.Consts.{RetCode}
use netclass.Mutex.Defs.{PosixMutex, NcMutex, is_locked, create, lock, trylock}
use netclass.Mutex.Flag
use netclass.Mutex.Flag.{
  MutexContract, SectionContract, Turns, fresh, turn, flag_of, is_locked-Turns, destroy_mutex-Turns,
  win32_trylock-clears,
}
use netclass.Mutex.Threads.{
  System, outside, raising, inside, move, Reach, initial, after, acquire, raise, lose,
  mutual_exclusion, stale_flag,
}
use netclass.Mutex.Refine
use netclass.Mutex.Refine.{
  Call, Reply, locks, tries, unlocks, asks, done, code, flag, create-refines, code_run, called,
}

abbrev take : ℕ → Option ℕ → ℤ × Option ℕ
take t none = (pos 0, some t)
take t (some u) = (pos 16, some u)

abbrev owner : Option ℕ → Option ℕ
owner n = n

abbrev posix : PosixMutex (Option ℕ)
posix = record {
  ebusy = pos 16;
  init = λ n. none;
  destroy = λ n. n;
  lock = λ t n. some t;
  trylock = take;
  unlock = λ t n. none;
}

posix-MutexContract : MutexContract posix owner
posix-MutexContract = record {
  starts_free = λ raw. refl;
  lock_takes = λ t n free. refl;
  try_free = λ t n free. ground arith;
  try_held = λ t u n held. ground arith;
  unlock_frees = λ t n held. refl;
  busy_is_error = ground arith;
}

-- Thread 1 locks, thread 2 tries in vain.
abbrev contended : NcMutex (Option ℕ)
contended = (trylock posix 2 (lock posix 1 (create posix none))).1

contended-Turns : Turns posix owner none contended
unfolding create
contended-Turns = turn (turn fresh (Flag.locks 1 refl)) (Flag.tries 2)

contended-holder : contended.mutex ≡ some 1
unfolding create lock trylock
contended-holder = refl

is_locked-Turns_example : is_locked contended ≡ flag_of contended.mutex
is_locked-Turns_example = is_locked-Turns posix owner posix-MutexContract contended-Turns

-- Thread 1 has locked, thread 2 has tried in vain.
abbrev busy : System (Option ℕ)
busy = record {
  object = record { locked = 1; mutex = some 1 };
  at = move (move (λ t. outside) 1 raising) 1 inside;
}

busy-Reach : Reach posix owner none busy
unfolding create
busy-Reach = after (after (after initial (acquire 1 refl refl)) (raise 1 refl)) (lose 2 refl refl)

mutual_exclusion_example : ◌≡◌ {A = ℕ} 1 1
mutual_exclusion_example = mutual_exclusion posix owner posix-MutexContract busy-Reach 1 1 refl refl

stale_flag_example :
    (s : System (Option ℕ)) × Reach posix owner none s
    × (s.at 2 ≡ inside)
    × (s.object.mutex ≡ some 2)
    × (is_locked s.object ≡ 0)
stale_flag_example = stale_flag posix owner none 1 2 posix-MutexContract (ground arith)

-- Thread 1 locks, thread 2 tries, thread 1 unlocks, and thread 2 tries again.
abbrev script : List Call
script = locks 1 ∷ tries 2 ∷ asks 2 ∷ unlocks 1 ∷ asks 1 ∷ tries 2 ∷ []

create-refines_example :
    code_run posix script (create posix (some 5))
    ≡ (done ∷ code RetCode.failed ∷ flag 1 ∷ done ∷ flag 0 ∷ code RetCode.ok ∷ [])
unfolding Refine.spec_run Refine.specified
create-refines_example =
    create-refines posix owner (some 5) script
      (done ∷ code RetCode.failed ∷ flag 1 ∷ done ∷ flag 0 ∷ code RetCode.ok ∷ [])
      posix-MutexContract refl
