-- ===== src/Mutex/Threads.antt =====
-- src/ncmutex.cpp: `ncMutex` of the POSIX build used by threads whose calls overlap. A call of lock or
-- trylock takes the native mutex and then sets the flag; unlock releases it and then clears the flag.
use netclass.Common.{
  ℕ, ◌≡◌, ◌≢◌, refl, Bool, true, false, Option, none, some, arith, ◌==◌, if◌then◌else◌,
  Option-cases, inl, inr,
}
use netclass.Mutex.Defs.{PosixMutex, NcMutex, is_locked, create}
use netclass.Mutex.Flag.{MutexContract}

-- Where a thread stands: outside, between the native call and the flag of lock, holding the mutex, or
-- between the native call and the flag of unlock.
pub data Place : Type 0 where
  outside raising inside lowering : Place

-- Between the native lock and the native unlock.
abbrev pub holds : Place → Bool
holds outside = false
holds raising = true
holds inside = true
holds lowering = false

abbrev pub move : (ℕ → Place) → ℕ → Place → ℕ → Place
move at i p j = if i == j then p else at j

module _ (N : Type 0) where
  pub record System : Type 0 where
    pub object : NcMutex N
    pub at : ℕ → Place

module _ {N : Type 0} (os : PosixMutex N) (holder : N → Option ℕ) where
  pub data Step (s : System N) : System N → Type 0 where
    acquire :
        (t : ℕ)
        → s.at t ≡ outside
        → holder s.object.mutex ≡ none
        → Step s (record {
          object = record s.object { mutex = os.lock t s.object.mutex };
          at = move s.at t raising;
        })
    win :
        (t : ℕ)
        → s.at t ≡ outside
        → (os.trylock t s.object.mutex).0 ≢ os.ebusy
        → Step s (record {
          object = record s.object { mutex = (os.trylock t s.object.mutex).1 };
          at = move s.at t raising;
        })
    lose :
        (t : ℕ)
        → s.at t ≡ outside
        → (os.trylock t s.object.mutex).0 ≡ os.ebusy
        → Step s (record s { object = record s.object { mutex = (os.trylock t s.object.mutex).1 } })
    raise :
        (t : ℕ)
        → s.at t ≡ raising
        → Step s (record { object = record s.object { locked = 1 }; at = move s.at t inside })
    release :
        (t : ℕ)
        → s.at t ≡ inside
        → Step s (record {
          object = record s.object { mutex = os.unlock t s.object.mutex };
          at = move s.at t lowering;
        })
    lower :
        (t : ℕ)
        → s.at t ≡ lowering
        → Step s (record { object = record s.object { locked = 0 }; at = move s.at t outside })

  pub data Reach (raw : N) : System N → Type 0 where
    initial : Reach raw (record { object = create os raw; at = λ t. outside })
    after : {s s' : System N} → Reach raw s → Step s s' → Reach raw s'

  -- Whoever stands between the native calls is the holder.
  Owns : System N → Type 0
  Owns s = (i : ℕ) → holds (s.at i) ≡ true → holder s.object.mutex ≡ some i

  Step-Owns : {s s' : System N} → MutexContract os holder → Step s s' → Owns s → Owns s'
  unfolding Owns
  Step-Owns {s} c (acquire t here free) own i h =
      ground (arith, c.lock_takes t s.object.mutex, own i)
  Step-Owns {s} c (win t here won) own i h = elim (Option-cases (holder s.object.mutex)) [
    | inl free ↦ ground (arith, c.try_free t s.object.mutex free, own i)
    | inr (u, held) ↦ absurd (won (c.try_held t u s.object.mutex held).0)
  ]
  Step-Owns {s} c (lose t here lost) own i h = ground (arith, c.try_held t i s.object.mutex, own i)
  Step-Owns {s} c (raise t here) own i h = ground (arith, own i)
  Step-Owns {s} c (release t here) own i h = ground (arith, own i, own t)
  Step-Owns {s} c (lower t here) own i h = ground (arith, own i)

  Reach-Owns : {raw : N} {s : System N} → MutexContract os holder → Reach raw s → Owns s
  unfolding Owns
  Reach-Owns c initial i h = cc
  Reach-Owns c (after r st) i h = Step-Owns c st (Reach-Owns c r) i h

  -- However the calls of the threads overlap, two threads are never between lock and unlock together.
  pub mutual_exclusion :
      {raw : N} {s : System N}
      → MutexContract os holder
      → Reach raw s
      → (i j : ℕ) → holds (s.at i) ≡ true
      → holds (s.at j) ≡ true
      → i ≡ j
  unfolding Owns
  mutual_exclusion c r i j hi hj = cc (Reach-Owns c r i hi, Reach-Owns c r j hj)

  -- But the flag can be wrong: any two threads can come to a state in which one of them is inside and
  -- holds the mutex, while isLocked says 0, because the other cleared the flag late.
  pub stale_flag :
      (raw : N) (t u : ℕ)
      → MutexContract os holder
      → t ≢ u
      → (s : System N) × Reach raw s
        × (s.at u ≡ inside)
        × (holder s.object.mutex ≡ some u)
        × (is_locked s.object ≡ 0)
  unfolding create is_locked
  stale_flag raw t u c ne =
      let n₁ = os.lock t (os.init raw) in
      let n₂ = os.unlock t n₁ in
      let free = c.unlock_frees t n₁ (c.lock_takes t (os.init raw) (c.starts_free raw)) in
      (
        _,
        after
            (after
              (after
                (after
                  (after (after initial (acquire t refl (c.starts_free raw)))
                    (raise t (ground arith)))
                  (release t (ground arith)))
                (acquire u (ground arith) free))
              (raise u (ground arith)))
            (lower t (ground arith)),
        ground arith,
        c.lock_takes u n₂ free,
        refl,
      )
