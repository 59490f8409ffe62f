-- ===== src/Mutex/Section.antt =====
-- src/ncmutex.cpp, the WIN32 build: the flag of ncMutex against the critical section, which a thread
-- that is in it can enter again.
use netclass.Common.{
  ℕ, suc, pos, ◌≡◌, ◌≢◌, refl, Bool, true, false, Option, none, some, arith, eqb_ℤ,
}
use netclass.Mutex.Defs.{
  CriticalSection, NcMutex, is_locked, win32_create, win32_lock, win32_trylock, win32_unlock,
  win32_destroy,
}

module _ {N : Type 0} (os : CriticalSection N) (held : N → Option (ℕ × ℕ)) where
  -- The section is free, or the thread is in it.
  pub data IsOpen (t : ℕ) (n : N) : Type 0 where
    free : held n ≡ none → IsOpen t n
    own : (depth : ℕ) → held n ≡ some (t, depth) → IsOpen t n

  -- What a critical section is documented to do; `held` is the thread that is in it, and how often it has
  -- entered it without leaving, but for the first time.
  pub record EntryContract : Type 0 where
    pub starts_free : (raw : N) → held (os.initialize raw) ≡ none
    pub enters : (t : ℕ) (n : N) → held n ≡ none → held (os.enter t n) ≡ some (t, 0)
    pub enters_again :
        (t depth : ℕ) (n : N) → held n ≡ some (t, depth) → held (os.enter t n) ≡ some (t, suc depth)
    pub tries :
        (t : ℕ) (n : N)
        → held n ≡ none
        → (eqb_ℤ (os.try_enter t n).0 (pos 0) ≡ false) × (held (os.try_enter t n).1 ≡ some (t, 0))
    pub tries_again :
        (t depth : ℕ) (n : N)
        → held n ≡ some (t, depth)
        → (eqb_ℤ (os.try_enter t n).0 (pos 0) ≡ false)
          × (held (os.try_enter t n).1 ≡ some (t, suc depth))
    pub try_fails :
        (t u depth : ℕ) (n : N)
        → t ≢ u
        → held n ≡ some (u, depth)
        → (eqb_ℤ (os.try_enter t n).0 (pos 0) ≡ true)
          × (held (os.try_enter t n).1 ≡ some (u, depth))
    pub leaves : (t : ℕ) (n : N) → held n ≡ some (t, 0) → held (os.leave t n) ≡ none
    pub leaves_inner :
        (t depth : ℕ) (n : N) → held n ≡ some (t, suc depth) → held (os.leave t n) ≡ some (t, depth)

  -- A call by a thread that can complete; `true` for a trylock that fails, and for the unlock of a mutex
  -- that the thread has locked more than once.
  pub data Call (m : NcMutex N) : Bool → NcMutex N → Type 0 where
    locks : (t : ℕ) → IsOpen t m.mutex → Call m false (win32_lock os t m)
    tries : (t : ℕ) → IsOpen t m.mutex → Call m false (win32_trylock os true t m).1
    fails :
        (t u depth : ℕ)
        → t ≢ u
        → held m.mutex ≡ some (u, depth)
        → Call m true (win32_trylock os true t m).1
    unlocks : (t : ℕ) → held m.mutex ≡ some (t, 0) → Call m false (win32_unlock os t m)
    unlocks_inner :
        (t depth : ℕ) → held m.mutex ≡ some (t, suc depth) → Call m true (win32_unlock os t m)

  -- The states after a sequence of calls, with the mark of the last one.
  pub data Calls (raw : N) : Bool → NcMutex N → Type 0 where
    fresh : Calls raw false (win32_create os raw)
    call :
        {last next : Bool} {m m' : NcMutex N}
        → Calls raw last m
        → Call m next m'
        → Calls raw next m'

  -- What isLocked is meant to say.
  abbrev pub meant : Option (ℕ × ℕ) → ℕ
  meant none = 0
  meant (some x) = 1

  -- What isLocked says, and what becomes of the section in a destructor, by the mark of the last call.
  pub data Says (m : NcMutex N) : Bool → Type 0 where
    truth : is_locked m ≡ meant (held m.mutex) → Says m false
    wrong :
        (t depth : ℕ)
        → held m.mutex ≡ some (t, depth)
        → is_locked m ≡ 0
        → ((v : ℕ) → (win32_destroy os v m).mutex ≡ os.delete m.mutex)
        → Says m true

  module _ (c : EntryContract) where
    Call-Says : {m m' : NcMutex N} {b : Bool} → Call m b m' → Says m' b
    unfolding win32_lock win32_trylock win32_unlock win32_destroy is_locked
    Call-Says {m} (locks t (free e)) = truth (ground (arith, c.enters t m.mutex e))
    Call-Says {m} (locks t (own depth e)) = truth (ground (arith, c.enters_again t depth m.mutex e))
    Call-Says {m} (tries t (free e)) = truth (ground (arith, c.tries t m.mutex e))
    Call-Says {m} (tries t (own depth e)) = truth (ground (arith, c.tries_again t depth m.mutex e))
    Call-Says {m} (fails t u depth ne e) =
        let (failed, kept) = c.try_fails t u depth m.mutex ne e in
        wrong u depth (ground (arith, failed, kept)) (ground (arith, failed))
          (λ v. ground (arith, failed))
    Call-Says {m} (unlocks t e) = truth (ground (arith, c.leaves t m.mutex e))
    Call-Says {m} (unlocks_inner t depth e) =
        wrong t depth (ground (arith, c.leaves_inner t depth m.mutex e)) refl (λ v. refl)

    -- In the WIN32 build with trylock supported, while calls do not overlap: after any sequence of lock,
    -- trylock and unlock that complete, each unlock by a thread in the section, isLocked says 1 when a
    -- thread is in the critical section and 0 when none is, unless the last call was a trylock that failed
    -- or the unlock of a mutex that its thread had locked more than once; then it says 0 while a thread is
    -- in the section, and a destructor deletes the section without leaving it.
    pub Calls-Says : {raw : N} {b : Bool} {m : NcMutex N} → Calls raw b m → Says m b
    unfolding win32_create is_locked
    Calls-Says {raw} fresh = truth (ground (arith, c.starts_free raw))
    Calls-Says (call before last) = Call-Says last
