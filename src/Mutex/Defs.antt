-- ===== src/Mutex/Defs.antt =====
-- src/ncmutex.h and src/ncmutex.cpp: `ncMutex` in the POSIX build and in the WIN32 build.
use netclass.Common.{ℕ, ℤ, pos, eqb_ℤ, ◌==◌, if◌then◌else◌, not, Bool, true, false}
use netclass.Consts.{RetCode}

-- The native mutex, in states N; the calling thread is an argument of each call. `lock` is the state
-- in which a call returns that has waited for its turn.
module _ (N : Type 0) where
  pub record PosixMutex : Type 0 where
    pub ebusy : ℤ
    pub init : N → N
    pub destroy : N → N
    pub lock : (thread : ℕ) → N → N
    pub trylock : (thread : ℕ) → N → ℤ × N
    pub unlock : (thread : ℕ) → N → N

  -- A critical section of WIN32.
  pub record CriticalSection : Type 0 where
    pub initialize : N → N
    pub delete : N → N
    pub enter : (thread : ℕ) → N → N
    pub try_enter : (thread : ℕ) → N → ℤ × N
    pub leave : (thread : ℕ) → N → N

  -- m_locked and m_mutex.
  pub record NcMutex : Type 0 where
    pub locked : ℕ
    pub mutex : N

module _ {N : Type 0} where
  -- int ncMutex::isLocked().
  unfoldable pub is_locked : NcMutex N → ℕ
  is_locked m = m.locked

module _ {N : Type 0} (os : PosixMutex N) where
  -- ncMutex::ncMutex().
  unfoldable pub create : N → NcMutex N
  create raw = record { locked = 0; mutex = os.init raw }

  unfoldable pub lock : ℕ → NcMutex N → NcMutex N
  lock thread m = record { locked = 1; mutex = os.lock thread m.mutex }

  unfoldable pub trylock : ℕ → NcMutex N → RetCode × NcMutex N
  trylock thread m =
      let r = os.trylock thread m.mutex in
      if not (eqb_ℤ r.0 os.ebusy)
      then (RetCode.ok, record { locked = 1; mutex = r.1 })
      else (RetCode.failed, record m { mutex = r.1 })

  unfoldable pub unlock : ℕ → NcMutex N → NcMutex N
  unlock thread m = record { locked = 0; mutex = os.unlock thread m.mutex }

  -- ncMutex::~ncMutex().
  unfoldable pub destroy_mutex : ℕ → NcMutex N → NcMutex N
  unfolding unlock
  destroy_mutex thread m =
      let m' = if not (m.locked == 0) then unlock thread m else m in
      record m' { mutex = os.destroy m'.mutex }

module _ {N : Type 0} (os : CriticalSection N) where
  -- ncMutex::ncMutex() of WIN32.
  unfoldable pub win32_create : N → NcMutex N
  win32_create raw = record { locked = 0; mutex = os.initialize raw }

  unfoldable pub win32_lock : ℕ → NcMutex N → NcMutex N
  win32_lock thread m = record { locked = 1; mutex = os.enter thread m.mutex }

  -- `supported` says that _WIN32_WINNT is 0x0400 or later.
  unfoldable pub win32_trylock : (supported : Bool) → ℕ → NcMutex N → RetCode × NcMutex N
  win32_trylock false thread m = (RetCode.notsupported, m)
  win32_trylock true thread m =
      let r = os.try_enter thread m.mutex in
      if not (eqb_ℤ r.0 (pos 0))
      then (RetCode.ok, record { locked = 1; mutex = r.1 })
      else (RetCode.failed, record { locked = 0; mutex = r.1 })

  unfoldable pub win32_unlock : ℕ → NcMutex N → NcMutex N
  win32_unlock thread m = record { locked = 0; mutex = os.leave thread m.mutex }

  -- ncMutex::~ncMutex() of WIN32.
  unfoldable pub win32_destroy : ℕ → NcMutex N → NcMutex N
  unfolding win32_unlock
  win32_destroy thread m =
      let m' = if not (m.locked == 0) then win32_unlock thread m else m in
      record m' { mutex = os.delete m'.mutex }
