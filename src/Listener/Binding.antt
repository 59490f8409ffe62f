-- ===== src/Listener/Binding.antt =====
-- src/ncsocklist.cpp: the loop round ::bind in `startListening`.
use netclass.Common.{
  ℕ, zero, suc, ℤ, minus_one, ◌+◌, ◌*◌, ◌≤◌, ◌≡◌, ◌≢◌, subst, sym, refl, ◌⊎◌, eqb_ℤ, true, false,
  Bool, Option, none, some, arith,
}
use netclass.Socket.State.{SockAddrIn}
use netclass.Listener.Defs.{Listener, ListenOs}
use netclass.Listener.Start.{bind_verdict, bind_loop}

module _ {W : Type 0} (os : ListenOs W) (addr : SockAddrIn) where
  -- Why the loop ended, of the last ::bind: it succeeded, or its error was that the address is in use,
  -- or the listener was found stopped after it; or it was the attempt number 10 and failed.
  abbrev pub Reason : Bool → (result : ℤ) (err listening attempts : ℕ) → Type 0
  Reason true result err listening attempts =
      (eqb_ℤ result minus_one ≡ false) ⊎ (os.arch.addr_in_use err ≡ true) ⊎ (listening ≡ 0)
  Reason false result err listening attempts = (eqb_ℤ result minus_one ≡ true) × (attempts ≡ 10)

  bind_verdict-Reason :
      (result : ℤ) (err listening attempts : ℕ) (bound : Bool)
      → bind_verdict os result err listening attempts ≡ some bound
      → Reason bound result err listening attempts
  unfolding bind_verdict
  bind_verdict-Reason result err listening attempts true e = ground arith
  bind_verdict-Reason result err listening attempts false e = ground arith

  bind_verdict-none :
      (result : ℤ) (err listening attempts : ℕ)
      → bind_verdict os result err listening attempts ≡ none
      → attempts ≢ 10
  unfolding bind_verdict
  bind_verdict-none result err listening attempts e = ground arith

  -- A ::bind and what the other threads do meanwhile.
  abbrev pub bound_at : Listener → W → ℤ × W
  bound_at l w = os.bind l.sockfd addr w

  abbrev pub after_bind : Listener → W → Listener × W
  after_bind l w = os.others l (bound_at l w).1

  abbrev pub verdict : ℕ → Listener → W → Option Bool
  verdict attempts l w =
      bind_verdict os (bound_at l w).0 (os.last_error (bound_at l w).1) (after_bind l w).0.listening
        attempts

  -- The loop ends with `bound`, after a last ::bind that gives the reason for it.
  pub record Ends (result : Option (Bool × Listener × W)) : Type 0 where
    pub bound : Bool
    pub last : ℕ
    pub listener : Listener
    pub world : W
    pub ends : result ≡ some (bound, (after_bind listener world).0, (after_bind listener world).1)
    pub reason :
        Reason bound
          (bound_at listener world).0
          (os.last_error (bound_at listener world).1)
          (after_bind listener world).0.listening
          last

  abbrev pub finish : ℕ → ℕ → Listener → W → Option Bool → Option (Bool × Listener × W)
  finish fuel attempts l w v = elim v [
    | some bound ↦ some (bound, (after_bind l w).0, (after_bind l w).1)
    | none ↦
        let o' =
          os.others (after_bind l w).0 (os.sleep ((attempts + 1) * 1000) (after_bind l w).1) in
        bind_loop os fuel addr (attempts + 1) o'.0 o'.1
  ]

  pub bind_loop-step :
      (fuel attempts : ℕ) (l : Listener) (w : W)
      → bind_loop os (suc fuel) addr attempts l w ≡ finish fuel attempts l w (verdict attempts l w)
  unfolding bind_loop
  bind_loop-step fuel attempts l w = refl

  finish-Ends :
      (fuel attempts : ℕ) (l : Listener) (w : W) (v : Option Bool)
      → ((l' : Listener) (w' : W)
          → attempts + 1 ≤ 10
          → Ends (bind_loop os fuel addr (attempts + 1) l' w'))
      → verdict attempts l w ≡ v
      → attempts ≤ 10
      → Ends (finish fuel attempts l w v)
  finish-Ends fuel attempts l w (some bound) ih e le = record {
    bound = bound;
    last = attempts;
    listener = l;
    world = w;
    ends = refl;
    reason =
        bind_verdict-Reason (bound_at l w).0 (os.last_error (bound_at l w).1)
          (after_bind l w).0.listening attempts bound e;
  }
  finish-Ends fuel attempts l w none ih e le = ih _ _ (
      omega (
        arith,
        bind_verdict-none (bound_at l w).0 (os.last_error (bound_at l w).1)
            (after_bind l w).0.listening attempts e,
      ))

  -- The loop round ::bind ends after at most 11 attempts, and by its last ::bind: it succeeded, or the
  -- address was in use, or the listener was found stopped; else, with NC_FAILED, the attempt 10 failed.
  pub bind_loop-Ends :
      (fuel attempts : ℕ) (l : Listener) (w : W)
      → attempts ≤ 10
      → 11 ≤ fuel + attempts
      → Ends (bind_loop os fuel addr attempts l w)
  bind_loop-Ends zero attempts l w le enough = absurd (omega arith)
  bind_loop-Ends (suc fuel) attempts l w le enough =
      subst Ends (sym (bind_loop-step fuel attempts l w)) (
        finish-Ends fuel attempts l w (verdict attempts l w)
          (λ l' w' le'. bind_loop-Ends fuel (attempts + 1) l' w' le' (omega arith)) refl le)
