-- ===== src/Thread/Defs.antt =====
-- src/ncthread.h and src/ncthread.cpp: `ncThread` in the POSIX build, with and without HAVE_THREADS.
use netclass.Common.{ℕ, ℤ, pos, eqb_ℤ, if◌then◌else◌, Bool}
use netclass.Consts.{RetCode}

-- m_retVal and ncthread; a null m_retVal is 0.
pub record NcThread : Type 0 where
  pub ret_val : ℕ
  pub handle : ℕ

-- What a native call leaves: its result, the word that it stores, and the state of the system.
pub record Called (W : Type 0) : Type 0 where
  pub result : ℤ
  pub stored : ℕ
  pub world : W

module _ (W Arg : Type 0) where
  -- pthread_create, join, detach and cancel; a thread runs `fn arg`. create stores the handle and join
  -- the value of the thread; both are given what stood there.
  pub record ThreadOs : Type 0 where
    pub create : (old fn : ℕ) → Arg → W → Called W
    pub join : (handle old : ℕ) → W → Called W
    pub detach : (handle : ℕ) → W → ℤ × W
    pub cancel : (handle : ℕ) → W → W
    pub enable_cancel : W → W

module _ {W Arg : Type 0} (os : ThreadOs W Arg) (have_threads : Bool) where
  -- ncThread::ncThread(); `stack` is what stands in the object.
  unfoldable pub new_thread : NcThread → W → NcThread × W
  new_thread stack w =
      if have_threads then (record stack { ret_val = 0 }, os.enable_cancel w) else (stack, w)

  unfoldable pub start : ℕ → Arg → NcThread → W → RetCode × NcThread × W
  start fn ptr t w =
      if have_threads
      then (let c = os.create t.handle fn ptr w in
          (
            if eqb_ℤ c.result (pos 0) then RetCode.ok else RetCode.failed,
            record t { handle = c.stored },
            c.world,
          ))
      else (RetCode.ok, t, w)

  unfoldable pub join : NcThread → W → RetCode × NcThread × W
  join t w =
      if have_threads
      then (let c = os.join t.handle t.ret_val w in
          (
            if eqb_ℤ c.result (pos 0) then RetCode.ok else RetCode.failed,
            record t { ret_val = c.stored },
            c.world,
          ))
      else (RetCode.ok, t, w)

  unfoldable pub detach : NcThread → W → RetCode × NcThread × W
  detach t w =
      if have_threads
      then (let r = os.detach t.handle w in
          (if eqb_ℤ r.0 (pos 0) then RetCode.ok else RetCode.failed, t, r.1))
      else (RetCode.ok, t, w)

  -- void ncThread::stop(int exitStatus), which does not use its argument.
  unfoldable pub stop : ℤ → NcThread → W → NcThread × W
  stop exit_status t w =
      if have_threads
      then (let c = os.join t.handle t.ret_val (os.cancel t.handle w) in
          (record t { ret_val = c.stored }, c.world))
      else (t, w)

module _ {W : Type 0} (have_threads : Bool) where
  -- static void ncThread::testCancel(), over pthread_testcancel.
  unfoldable pub test_cancel : (W → W) → W → W
  test_cancel pthread_testcancel w = if have_threads then pthread_testcancel w else w

  -- void ncThread::exit(), over pthread_exit, which does not return.
  unfoldable pub exit : (ℕ → W → W) → NcThread → W → W
  exit pthread_exit t w = if have_threads then pthread_exit t.ret_val w else w

unfoldable pub get_thread_handle : NcThread → ℕ
get_thread_handle t = t.handle
