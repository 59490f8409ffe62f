-- ===== src/Thread/Win32.antt =====
-- src/ncthread.cpp: `ncThread` in the WIN32 build, and the handles that it leaves open.
use netclass.Common.{ℕ, suc, ℤ, ◌≡◌, eqb_ℤ, ◌==◌, if◌then◌else◌, List, [], ◌∷◌, uint_of_int}
use netclass.Consts.{RetCode}
use netclass.Thread.Defs.{NcThread}

module _ (W Arg : Type 0) where
  -- CreateThread gives a handle, 0 if it fails; the others act on a handle.
  pub record Win32Os : Type 0 where
    pub wait_failed : ℤ
    pub create : (fn : ℕ) → Arg → W → ℕ × W
    pub wait : (handle : ℕ) → W → ℤ × W
    pub terminate : (handle status : ℕ) → W → W
    pub close_handle : (handle : ℕ) → W → W

module _ {W Arg : Type 0} (os : Win32Os W Arg) where
  unfoldable pub win32_start : ℕ → Arg → NcThread → W → RetCode × NcThread × W
  win32_start fn ptr t w =
      let (handle, w') = os.create fn ptr w in
      (if handle == 0 then RetCode.failed else RetCode.ok, record t { handle = handle }, w')

  unfoldable pub win32_join : NcThread → W → RetCode × NcThread × W
  win32_join t w =
      let (result, w') = os.wait t.handle w in
      (if eqb_ℤ result os.wait_failed then RetCode.failed else RetCode.ok, t, w')

  unfoldable pub win32_detach : NcThread → W → RetCode × NcThread × W
  win32_detach t w = (RetCode.ok, t, w)

  unfoldable pub win32_stop : ℤ → NcThread → W → NcThread × W
  win32_stop exit_status t w = (t, os.terminate t.handle (uint_of_int exit_status) w)

  -- ncThread::testCancel() and ncThread::exit(), which do nothing.
  unfoldable pub win32_test_cancel : W → W
  win32_test_cancel w = w

  unfoldable pub win32_exit : NcThread → W → W
  win32_exit t w = w

  -- ncThread::~ncThread().
  unfoldable pub win32_destroy_thread : NcThread → W → W
  win32_destroy_thread t w = os.close_handle t.handle w

  -- What a thread object is used for, between its constructor and its destructor.
  pub data Task : Type 0 where
    starts : ℕ → Arg → Task
    joins detaches tests_cancel exits : Task
    stops : ℤ → Task

  unfoldable pub perform : Task → NcThread → W → NcThread × W
  unfolding win32_start win32_join win32_detach win32_stop win32_test_cancel win32_exit
  perform (starts fn a) t w = let (code, t', w') = win32_start fn a t w in (t', w')
  perform joins t w = let (code, t', w') = win32_join t w in (t', w')
  perform detaches t w = let (code, t', w') = win32_detach t w in (t', w')
  perform (stops status) t w = win32_stop status t w
  perform tests_cancel t w = (t, win32_test_cancel w)
  perform exits t w = (t, win32_exit t w)

  unfoldable pub perform_all : List Task → NcThread → W → NcThread × W
  perform_all [] t w = (t, w)
  perform_all (task ∷ tasks) t w = let (t', w') = perform task t w in perform_all tasks t' w'

  abbrev pub start_count : List Task → ℕ
  start_count [] = 0
  start_count (starts fn a ∷ tasks) = suc (start_count tasks)
  start_count (joins ∷ tasks) = start_count tasks
  start_count (detaches ∷ tasks) = start_count tasks
  start_count (stops status ∷ tasks) = start_count tasks
  start_count (tests_cancel ∷ tasks) = start_count tasks
  start_count (exits ∷ tasks) = start_count tasks

  module _ (handles : W → ℕ) where
    -- What the calls do to the number of the open handles, when no thread fails to be created.
    pub record HandleContract : Type 0 where
      pub creates : (fn : ℕ) (a : Arg) (w : W) → handles (os.create fn a w).1 ≡ suc (handles w)
      pub waits : (h : ℕ) (w : W) → handles (os.wait h w).1 ≡ handles w
      pub terminates : (h status : ℕ) (w : W) → handles (os.terminate h status w) ≡ handles w
      pub closes : (h : ℕ) (w : W) (k : ℕ) → handles w ≡ suc k → handles (os.close_handle h w) ≡ k
