-- ===== src/Listener/Reclaim.antt =====
-- src/ncsocklist.cpp: which of the threads that `startListening` starts are joined or detached.
use netclass.Common.{
  ℕ, suc, ℤ, pos, ◌+◌, ◌≡◌, ◌⊎◌, ◌∙◌, refl, inl, inr, eqb_ℤ, true, false, ◌||◌, Bool, List, ◌∷◌,
  length, some, arith, Bool-cases, ap,
}
use netclass.Consts.{RetCode, nc_detached, nc_joined}
use netclass.Socket.State.{SockAddrIn, NcSocket}
use netclass.Thread.Defs.{NcThread, join, detach}
use netclass.Thread.Lifecycle.{ThreadContract}
use netclass.Listener.Defs.{Listener, ListenOs, client_socket}
use netclass.Listener.Good.{
  created_for, thread_of, Served, by_call, by_thread, Follows, accept_loop-Follows,
}
use netclass.Listener.Serve.{Serving, release, accept_loop}

-- The flags with which a thread is joined or detached.
abbrev pub are_exact : ℤ → Bool
are_exact flags = eqb_ℤ flags (pos nc_detached) || eqb_ℤ flags (pos nc_joined)

module _ {W : Type 0} (os : ListenOs W) (pending : W → List ℕ) (created : W → ℕ) where
  -- Neither the threads to be reclaimed nor the number of those created have changed.
  abbrev pub Same : W → W → Type 0
  Same w w' = (pending w' ≡ pending w) × (created w' ≡ created w)

  pub record ReclaimContract : Type 0 where
    pub threaded : os.have_threads ≡ true
    pub native : ThreadContract os.threads pending
    pub counts :
        (old fn : ℕ) (s : NcSocket) (w : W)
        → eqb_ℤ (os.threads.create old fn (client_socket s) w).result (pos 0) ≡ true
        → created (os.threads.create old fn (client_socket s) w).world ≡ suc (created w)
    pub accepts : (fd : ℤ) (a : SockAddrIn) (w : W) → Same w (os.accept fd a w).world
    pub calls : (fn : ℕ) (s : NcSocket) (w : W) → Same w (os.call fn (client_socket s) w)
    pub joins : (h old : ℕ) (w : W) → created (os.threads.join h old w).world ≡ created w
    pub detaches : (h : ℕ) (w : W) → created (os.threads.detach h w).1 ≡ created w
    pub sleeps : (ms : ℕ) (w : W) → Same w (os.sleep ms w)
    pub others_keep : (l : Listener) (w : W) → Same w (os.others l w).1

  module _ (fn : ℕ) (option flags : ℤ) where
    -- With exact flags no thread more is to be reclaimed; with others, every one that was created.
    abbrev Owed : W → W → Type 0
    Owed w w' =
        (are_exact flags ≡ true → pending w' ≡ pending w)
        × (are_exact flags ≡ false
            → length (pending w') + created w ≡ length (pending w) + created w')

    Same-Owed : {w w' : W} → Same w w' → Owed w w'
    Same-Owed (p, c) = (λ exact. p, λ other. rw (p, c) refl)

    Owed-trans : {w w' w'' : W} → Owed w w' → Owed w' w'' → Owed w w''
    Owed-trans (p, c) (p', c') =
        (λ exact. p' exact ∙ p exact, λ other. omega (arith, c other, c' other))

    release-Owed :
        (t : NcThread) (w u : W)
        → ReclaimContract
        → pending u ≡ t.handle ∷ pending w
        → created u ≡ suc (created w)
        → let r = release os fn option flags t u in r.0 ≡ true → Owed w r.2
    unfolding release join detach
    release-Owed t w u c now more good = elim (Bool-cases (eqb_ℤ flags (pos nc_detached))) [
      | inl detached ↦
          (let done : eqb_ℤ (os.threads.detach t.handle u).0 (pos 0) ≡ true =
              ground (arith, c.threaded) in
            let gone : pending (os.threads.detach t.handle u).1 ≡ pending w =
              c.native.detached t.handle (pending w) u now done in
            (λ exact. ground (arith, c.threaded), λ apart. absurd (ground arith)))
      | inr other ↦ elim (Bool-cases (eqb_ℤ flags (pos nc_joined))) [
        | inl joined ↦
            (let done : eqb_ℤ (os.threads.join t.handle t.ret_val u).result (pos 0) ≡ true =
                ground (arith, c.threaded) in
              let gone : pending (os.threads.join t.handle t.ret_val u).world ≡ pending w =
                c.native.joined t.handle t.ret_val (pending w) u now done in
              (λ exact. ground (arith, c.threaded), λ apart. absurd (ground arith)))
        | inr neither ↦
            (let size : length (pending u) ≡ suc (length (pending w)) = ap length now in
              (λ exact. absurd (ground arith), λ apart. ground arith))
      ]
    ]

    Served-Owed :
        (s : NcSocket) {w w' : W} → ReclaimContract → Served os fn option flags s w w' → Owed w w'
    Served-Owed s c (by_call w) = Same-Owed (c.calls fn s w)
    Served-Owed s c (by_thread t w ok good) =
        release-Owed (thread_of os fn option flags s t w) w
          (created_for os fn option flags s t w).world c
          (c.native.creates t.handle fn (client_socket s) w ok) (c.counts t.handle fn s w ok) good

    Owed-Follows : ReclaimContract → Follows os fn option flags Owed
    Owed-Follows c = record {
      stays = λ w. Same-Owed (refl, refl);
      then = λ first second. Owed-trans first second;
      nobody = λ fd a w none_came. Same-Owed (c.accepts fd a w);
      client = λ fd a w w' came served.
          Owed-trans (Same-Owed (c.accepts fd a w)) (Served-Owed _ c served);
      sleeps = λ ms w. Same-Owed (c.sleeps ms w);
      others = λ l w. Same-Owed (c.others_keep l w);
    }

    -- What is to be reclaimed after a run from `w` to `w'`.
    abbrev pub Reclaimed : W → W → Type 0
    Reclaimed w w' =
        ((are_exact flags ≡ true) × (pending w' ≡ pending w))
        ⊎ ((are_exact flags ≡ false)
            × (length (pending w') + created w ≡ length (pending w) + created w'))

    -- In a build with threads, and where the native calls do to the threads what they are documented to
    -- do: when the loop that accepts has returned NC_OK, the threads to be reclaimed are those from before
    -- if the flags are exactly NC_DETACHED or exactly NC_JOINED; with any other flags, also those that
    -- contain the bit of one of the two, each thread that was created is one more.
    pub accept_loop-Reclaims :
        (fuel : ℕ) (v : Serving W) (l' : Listener) (w' : W)
        → ReclaimContract
        → accept_loop os fn option flags fuel v ≡ some (RetCode.ok, l', w')
        → Reclaimed v.world w'
    accept_loop-Reclaims fuel v l' w' c run =
        let (exactly, otherwise) =
          accept_loop-Follows os fn option flags c.threaded Owed (Owed-Follows c) fuel v l' w'
            run in
        elim (Bool-cases (are_exact flags)) [
          | inl exact ↦ inl (exact, exactly exact)
          | inr other ↦ inr (other, otherwise other)
        ]
