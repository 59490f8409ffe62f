-- ===== src/Mutex/Refine.antt =====
-- src/ncmutex.cpp: ncMutex of the POSIX build against its specification, a cell that holds the thread
-- that has locked it.
use netclass.Common.{
  ℕ, ◌≡◌, refl, ap₂, ◌∙◌, inl, inr, ◌==◌, if◌then◌else◌, List, [], ◌∷◌, Option, none, some, arith,
  Option-cases,
}
use netclass.Consts.{RetCode}
use netclass.Mutex.Defs.{PosixMutex, NcMutex, is_locked, create, lock, trylock, unlock}
use netclass.Mutex.Flag.{MutexContract, flag_of}

-- A call by a thread.
pub data Call : Type 0 where
  locks tries unlocks asks : ℕ → Call

-- What the caller sees.
pub data Reply : Type 0 where
  done : Reply
  code : RetCode → Reply
  flag : ℕ → Reply

-- The specification: what a call replies and leaves, or `none` if it cannot complete now.
unfoldable pub specified : Call → Option ℕ → Option (Reply × Option ℕ)
specified (locks t) none = some (done, some t)
specified (locks t) (some u) = none
specified (tries t) none = some (code RetCode.ok, some t)
specified (tries t) (some u) = some (code RetCode.failed, some u)
specified (unlocks t) none = none
specified (unlocks t) (some u) = if t == u then some (done, none) else none
specified (asks t) o = some (flag (flag_of o), o)

-- The specification of the rest of the calls, when the first has replied.
abbrev rest_of : Reply → Option (List Reply) → Option (List Reply)
rest_of r none = none
rest_of r (some rs) = some (r ∷ rs)

-- The replies to a sequence of calls, if each can complete in its turn.
unfoldable pub spec_run : List Call → Option ℕ → Option (List Reply)
spec_run [] o = some []
spec_run (c ∷ cs) o = elim (specified c o) [
  | none ↦ none
  | some (r, o') ↦ rest_of r (spec_run cs o')
]

module _ {N : Type 0} (os : PosixMutex N) where
  unfoldable pub called : Call → NcMutex N → Reply × NcMutex N
  unfolding lock trylock unlock is_locked
  called (locks t) m = (done, lock os t m)
  called (tries t) m = let (ret, m') = trylock os t m in (code ret, m')
  called (unlocks t) m = (done, unlock os t m)
  called (asks t) m = (flag (is_locked m), m)

  unfoldable pub code_run : List Call → NcMutex N → List Reply
  code_run [] m = []
  code_run (c ∷ cs) m = let (r, m') = called c m in r ∷ code_run cs m'

module _ {N : Type 0} (os : PosixMutex N) (holder : N → Option ℕ) where
  -- The object stands for the cell.
  pub record Abstracts (m : NcMutex N) (o : Option ℕ) : Type 0 where
    pub held : holder m.mutex ≡ o
    pub flagged : m.locked ≡ flag_of o

  called-Abstracts :
      (c : Call) (m : NcMutex N) (o o' : Option ℕ) (r : Reply)
      → MutexContract os holder
      → Abstracts m o
      → specified c o ≡ some (r, o')
      → ((called os c m).0 ≡ r) × Abstracts (called os c m).1 o'
  unfolding called specified
  called-Abstracts (locks t) m none o' r k a e = ground (arith, k.lock_takes t m.mutex)
  called-Abstracts (locks t) m (some u) o' r k a e = absurd (ground arith)
  called-Abstracts (tries t) m none o' r k a e =
      ground (arith, k.try_free t m.mutex a.held, k.busy_is_error)
  called-Abstracts (tries t) m (some u) o' r k a e = ground (arith, k.try_held t u m.mutex a.held)
  called-Abstracts (unlocks t) m none o' r k a e = absurd (ground arith)
  called-Abstracts (unlocks t) m (some u) o' r k a e = ground (arith, k.unlock_frees t m.mutex)
  called-Abstracts (asks t) m o o' r k a e = ground arith

  rest_of-some :
      (r : Reply) (o : Option (List Reply)) (rs : List Reply)
      → rest_of r o ≡ some rs
      → (rs' : List Reply) × (o ≡ some rs') × (r ∷ rs' ≡ rs)
  rest_of-some r none rs e = absurd (ground arith)
  rest_of-some r (some rs') rs e = (rs', refl, cc)

  spec_run-cons :
      (c : Call) (cs : List Call) (o : Option ℕ) (rs : List Reply)
      → spec_run (c ∷ cs) o ≡ some rs
      → (r : Reply) × (o' : Option ℕ) × (rs' : List Reply) × (specified c o ≡ some (r, o'))
        × (spec_run cs o' ≡ some rs')
        × (r ∷ rs' ≡ rs)
  unfolding spec_run
  spec_run-cons c cs o rs e = elim (Option-cases (specified c o)) [
    | inl blocked ↦ absurd (ground arith)
    | inr ((r, o'), now) ↦
        let (rs', later, whole) = rest_of-some r (spec_run cs o') rs (ground arith) in
        (r, o', rs', now, later, whole)
  ]

  run_refines :
      (cs : List Call) (m : NcMutex N) (o : Option ℕ) (rs : List Reply)
      → MutexContract os holder
      → Abstracts m o
      → spec_run cs o ≡ some rs
      → code_run os cs m ≡ rs
  unfolding code_run spec_run
  run_refines [] m o rs k a e = ground arith
  run_refines (c ∷ cs) m o rs k a e =
      let (r, o', rs', now, later, whole) = spec_run-cons c cs o rs e in
      let (same, a') = called-Abstracts c m o o' r k a now in
      ap₂ ◌∷◌ same (run_refines cs (called os c m).1 o' rs' k a' later) ∙ whole

  -- No sequence of calls of lock, trylock, unlock and isLocked, each made when it can complete and one
  -- after the other, tells a new ncMutex from the specification: the replies are the same.
  pub create-refines :
      (raw : N) (cs : List Call) (rs : List Reply)
      → MutexContract os holder
      → spec_run cs none ≡ some rs
      → code_run os cs (create os raw) ≡ rs
  unfolding create
  create-refines raw cs rs k e =
      run_refines cs (create os raw) none rs k (record { held = k.starts_free raw; flagged = refl })
        e
