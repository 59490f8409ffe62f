-- ===== src/Thread/Lifecycle.antt =====
-- src/ncthread.cpp: whether the threads that an ncThread has started are reclaimed.
use netclass.Common.{
  ℕ, ℤ, pos, ◌≡◌, ◌⊎◌, ◌∙◌, refl, inl, inr, Bool-cases, eqb_ℤ, true, false, List, ◌∷◌, arith,
}
use netclass.Consts.{RetCode}
use netclass.Thread.Defs.{NcThread, ThreadOs, start, join, detach, stop}

-- How the user of a started thread goes on with it.
pub data Ending : Type 0 where
  joins detaches : Ending
  stops : ℤ → Ending

module _ {W Arg : Type 0} (os : ThreadOs W Arg) (pending : W → List ℕ) where
  -- What the native calls are documented to do to the threads that are neither joined nor detached:
  -- create adds one if its result is 0, join and detach take it away if theirs is.
  pub record ThreadContract : Type 0 where
    pub creates :
        (old fn : ℕ) (a : Arg) (w : W)
        → eqb_ℤ (os.create old fn a w).result (pos 0) ≡ true
        → pending (os.create old fn a w).world ≡ (os.create old fn a w).stored ∷ pending w
    pub create_fails :
        (old fn : ℕ) (a : Arg) (w : W)
        → eqb_ℤ (os.create old fn a w).result (pos 0) ≡ false
        → pending (os.create old fn a w).world ≡ pending w
    pub joined :
        (h old : ℕ) (rest : List ℕ) (w : W)
        → pending w ≡ h ∷ rest
        → eqb_ℤ (os.join h old w).result (pos 0) ≡ true
        → pending (os.join h old w).world ≡ rest
    pub join_fails :
        (h old : ℕ) (w : W)
        → eqb_ℤ (os.join h old w).result (pos 0) ≡ false
        → pending (os.join h old w).world ≡ pending w
    pub detached :
        (h : ℕ) (rest : List ℕ) (w : W)
        → pending w ≡ h ∷ rest
        → eqb_ℤ (os.detach h w).0 (pos 0) ≡ true
        → pending (os.detach h w).1 ≡ rest
    pub detach_fails :
        (h : ℕ) (w : W)
        → eqb_ℤ (os.detach h w).0 (pos 0) ≡ false
        → pending (os.detach h w).1 ≡ pending w
    pub cancel_keeps : (h : ℕ) (w : W) → pending (os.cancel h w) ≡ pending w
    -- A thread that has been cancelled can be joined.
    pub cancelled_joins :
        (h old : ℕ) (w : W) → eqb_ℤ (os.join h old (os.cancel h w)).result (pos 0) ≡ true

  abbrev pub end_thread : Ending → NcThread → W → RetCode × NcThread × W
  end_thread joins t w = join os true t w
  end_thread detaches t w = detach os true t w
  end_thread (stops status) t w = let (t', w') = stop os true status t w in (RetCode.ok, t', w')

  end_thread-pending :
      (e : Ending) (t : NcThread) (rest : List ℕ) (w : W)
      → ThreadContract
      → pending w ≡ t.handle ∷ rest
      → let (code, t', w') = end_thread e t w in
        ((code ≡ RetCode.ok) × (pending w' ≡ rest))
        ⊎ ((code ≡ RetCode.failed) × (pending w' ≡ t.handle ∷ rest))
  unfolding join detach stop
  end_thread-pending joins t rest w c now =
      elim (Bool-cases (eqb_ℤ (os.join t.handle t.ret_val w).result (pos 0))) [
        | inl good ↦ inl (ground arith, c.joined t.handle t.ret_val rest w now good)
        | inr bad ↦ inr (ground arith, c.join_fails t.handle t.ret_val w bad ∙ now)
      ]
  end_thread-pending detaches t rest w c now =
      elim (Bool-cases (eqb_ℤ (os.detach t.handle w).0 (pos 0))) [
        | inl good ↦ inl (ground arith, c.detached t.handle rest w now good)
        | inr bad ↦ inr (ground arith, c.detach_fails t.handle w bad ∙ now)
      ]
  end_thread-pending (stops status) t rest w c now =
      let u = os.cancel t.handle w in
      inl (
        refl,
        c.joined t.handle t.ret_val rest u (c.cancel_keeps t.handle w ∙ now)
            (c.cancelled_joins t.handle t.ret_val w),
      )

  -- In a build with threads, start followed by join, detach or stop: after NC_OK and NC_OK the threads
  -- to be reclaimed are those from before; a thread whose join or detach reports NC_FAILED stays to be
  -- reclaimed; and a start that reports NC_FAILED has left none.
  pub start-end_thread :
      (e : Ending) (fn : ℕ) (a : Arg) (t : NcThread) (w : W)
      → ThreadContract
      → let (code, t', w') = start os true fn a t w in
        let (code', t'', w'') = end_thread e t' w' in
        ((code ≡ RetCode.failed) × (pending w' ≡ pending w))
        ⊎ ((code ≡ RetCode.ok) × (code' ≡ RetCode.ok) × (pending w'' ≡ pending w))
        ⊎ ((code ≡ RetCode.ok) × (code' ≡ RetCode.failed) × (pending w'' ≡ t'.handle ∷ pending w))
  unfolding start join detach stop
  start-end_thread e fn a t w c =
      let called = os.create t.handle fn a w in
      elim (Bool-cases (eqb_ℤ called.result (pos 0))) [
        | inr bad ↦ inl (ground arith, ground (arith, c.create_fails t.handle fn a w bad))
        | inl good ↦
            let now = c.creates t.handle fn a w good in
            elim (end_thread-pending e (record t { handle = called.stored }) (pending w)
              called.world c now) [
                | inl (o, p) ↦ inr (inl (ground arith, o, p))
                | inr (o, p) ↦ inr (inr (ground arith, o, p))
              ]
      ]
