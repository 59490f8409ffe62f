-- ===== src/Mutex/Flag.antt =====
-- src/ncmutex.cpp: the flag of ncMutex against the native mutex, one call after the other.
use netclass.Common.{ℕ, pos, ◌≡◌, ◌≢◌, Option, none, some, arith, true, ◌⊎◌, Option-cases, inl, inr}
use netclass.Consts.{RetCode}
use netclass.Mutex.Defs.{
  PosixMutex, CriticalSection, NcMutex, is_locked, create, lock, trylock, unlock, destroy_mutex,
  win32_lock, win32_trylock, win32_destroy,
}

-- What isLocked is meant to say of a holder.
abbrev pub flag_of : Option ℕ → ℕ
flag_of none = 0
flag_of (some t) = 1

module _ {N : Type 0} (os : PosixMutex N) (holder : N → Option ℕ) where
  -- What the native mutex is documented to do, by the thread that holds it: a lock returns to a thread
  -- when it is free, trylock takes it if it is free and says EBUSY if not, its holder can release it.
  pub record MutexContract : Type 0 where
    pub starts_free : (raw : N) → holder (os.init raw) ≡ none
    pub lock_takes : (t : ℕ) (n : N) → holder n ≡ none → holder (os.lock t n) ≡ some t
    pub try_free :
        (t : ℕ) (n : N)
        → holder n ≡ none
        → ((os.trylock t n).0 ≡ pos 0) × (holder (os.trylock t n).1 ≡ some t)
    pub try_held :
        (t u : ℕ) (n : N)
        → holder n ≡ some u
        → ((os.trylock t n).0 ≡ os.ebusy) × (holder (os.trylock t n).1 ≡ some u)
    pub unlock_frees : (t : ℕ) (n : N) → holder n ≡ some t → holder (os.unlock t n) ≡ none
    pub busy_is_error : os.ebusy ≢ pos 0

  -- A call by a thread, in a state where it can complete: a lock when the mutex is free, an unlock by
  -- the thread that holds it, a trylock at any time.
  pub data Turn (m : NcMutex N) : NcMutex N → Type 0 where
    locks : (t : ℕ) → holder m.mutex ≡ none → Turn m (lock os t m)
    tries : (t : ℕ) → Turn m (trylock os t m).1
    unlocks : (t : ℕ) → holder m.mutex ≡ some t → Turn m (unlock os t m)

  pub data Turns (raw : N) : NcMutex N → Type 0 where
    fresh : Turns raw (create os raw)
    turn : {m m' : NcMutex N} → Turns raw m → Turn m m' → Turns raw m'

  Turn-flag :
      {m m' : NcMutex N}
      → MutexContract
      → Turn m m'
      → m.locked ≡ flag_of (holder m.mutex)
      → m'.locked ≡ flag_of (holder m'.mutex)
  unfolding lock trylock unlock
  Turn-flag {m} c (locks t free) flag = ground (arith, c.lock_takes t m.mutex)
  Turn-flag {m} c (tries t) flag = elim (Option-cases (holder m.mutex)) [
    | inl free ↦ ground (arith, c.try_free t m.mutex free, c.busy_is_error)
    | inr (u, held) ↦ ground (arith, c.try_held t u m.mutex held)
  ]
  Turn-flag {m} c (unlocks t held) flag = ground (arith, c.unlock_frees t m.mutex)

  Turns-flag :
      {raw : N} {m : NcMutex N} → MutexContract → Turns raw m → m.locked ≡ flag_of (holder m.mutex)
  unfolding create
  Turns-flag {raw} c fresh = ground (arith, c.starts_free raw)
  Turns-flag c (turn ts t) = Turn-flag c t (Turns-flag c ts)

  -- While the calls do not overlap, in the POSIX build: isLocked says 1 when some thread holds the
  -- mutex and 0 when none does, after any sequence of lock, trylock and unlock.
  pub is_locked-Turns :
      {raw : N} {m : NcMutex N}
      → MutexContract
      → Turns raw m
      → is_locked m ≡ flag_of (holder m.mutex)
  unfolding is_locked
  is_locked-Turns c ts = Turns-flag c ts

  -- After such a sequence the destructor, called by the thread that holds the mutex or when none does,
  -- destroys it unlocked.
  pub destroy_mutex-Turns :
      {raw : N} {m : NcMutex N} (t : ℕ)
      → MutexContract
      → Turns raw m
      → (holder m.mutex ≡ none) ⊎ (holder m.mutex ≡ some t)
      → (n : N) × ((destroy_mutex os t m).mutex ≡ os.destroy n) × (holder n ≡ none)
  unfolding destroy_mutex
  destroy_mutex-Turns {m = m} t c ts (inl free) = (m.mutex, ground (arith, Turns-flag c ts), free)
  destroy_mutex-Turns {m = m} t c ts (inr held) =
      (os.unlock t m.mutex, ground (arith, Turns-flag c ts), c.unlock_frees t m.mutex held)

module _ {N : Type 0} (os : CriticalSection N) (holder : N → Option ℕ) where
  -- What a critical section is documented to do, by the thread that has entered it.
  pub record SectionContract : Type 0 where
    pub enter_takes : (t : ℕ) (n : N) → holder n ≡ none → holder (os.enter t n) ≡ some t
    pub try_held :
        (t u : ℕ) (n : N)
        → t ≢ u
        → holder n ≡ some u
        → ((os.try_enter t n).0 ≡ pos 0) × (holder (os.try_enter t n).1 ≡ some u)

  -- In the WIN32 build, when thread u has locked a free mutex and another thread t then fails to lock
  -- it by trylock, isLocked says 0 while u holds the mutex, and a destructor that runs then deletes the
  -- critical section while u is in it.
  pub win32_trylock-clears :
      (t u v : ℕ) (m : NcMutex N)
      → SectionContract
      → t ≢ u
      → holder m.mutex ≡ none
      → let r = win32_trylock os true t (win32_lock os u m) in
        (r.0 ≡ RetCode.failed)
        × (is_locked r.1 ≡ 0)
        × (holder r.1.mutex ≡ some u)
        × ((win32_destroy os v r.1).mutex ≡ os.delete r.1.mutex)
  unfolding win32_trylock win32_lock win32_destroy is_locked
  win32_trylock-clears t u v m c ne free =
      let taken = c.enter_takes u m.mutex free in
      let refused = c.try_held t u (os.enter u m.mutex) ne taken in ground arith
