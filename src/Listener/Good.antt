-- ===== src/Listener/Good.antt =====
-- src/ncsocklist.cpp: what is true of each round of the loop that accepts is true of a loop that has
-- returned NC_OK.
use netclass.Common.{
  ℕ, zero, suc, ℤ, pos, minus_one, ◌≡◌, ◌∙◌, refl, sym, subst, inl, inr, eqb_ℤ, true, false, Option,
  some, none, arith, Bool-cases, Option-cases, ap, Bool,
}
use netclass.Consts.{RetCode, nc_threaded}
use netclass.Socket.State.{SockAddrIn, NcSocket}
use netclass.Thread.Defs.{NcThread, Called, start}
use netclass.Listener.Defs.{Listener, ListenOs, client_socket}
use netclass.Listener.Serve.{
  Serving, made, release, spawn, serve_client, accept_round, accept_verdict, accept_loop,
}

module _ {W : Type 0} (os : ListenOs W) (fn : ℕ) (option flags : ℤ) where
  -- pthread_create for the client `s`.
  abbrev pub created_for : NcSocket → NcThread → W → Called W
  created_for s t w = os.threads.create t.handle fn (client_socket s) w

  abbrev pub thread_of : NcSocket → NcThread → W → NcThread
  thread_of s t w = record t { handle = (created_for s t w).stored }

  abbrev pub released : NcSocket → NcThread → W → Bool × NcThread × W
  released s t w = release os fn option flags (thread_of s t w) (created_for s t w).world

  -- The client `s` has been handed over between two states: to the callback here, or to one in a thread
  -- that has been created, and detached or joined as the flags ask.
  pub data Served (s : NcSocket) : W → W → Type 0 where
    by_call : (w : W) → Served s w (os.call fn (client_socket s) w)
    by_thread :
        (t : NcThread) (w : W)
        → eqb_ℤ (created_for s t w).result (pos 0) ≡ true
        → (released s t w).0 ≡ true
        → Served s w (released s t w).2

  -- What has to be true of `R`, a relation between the states before and after.
  pub record Follows (R : W → W → Type 0) : Type 0 where
    pub stays : (w : W) → R w w
    pub then : {w w' w'' : W} → R w w' → R w' w'' → R w w''
    pub nobody :
        (fd : ℤ) (a : SockAddrIn) (w : W)
        → eqb_ℤ (os.accept fd a w).client minus_one ≡ true
        → R w (os.accept fd a w).world
    pub client :
        (fd : ℤ) (a : SockAddrIn) (w w' : W)
        → let c = os.accept fd a w in
          eqb_ℤ c.client minus_one ≡ false
          → Served (made os fn option flags c.client c.addr) c.world w'
          → R w w'
    pub sleeps : (ms : ℕ) (w : W) → R w (os.sleep ms w)
    pub others : (l : Listener) (w : W) → R w (os.others l w).1

  module _ (threaded : os.have_threads ≡ true) where
    spawn-Served :
        (s : NcSocket) (t : NcThread) (w : W)
        → let r = spawn os fn option flags s t w in r.0 ≡ true → Served s w r.2
    unfolding spawn start
    spawn-Served s t w good = elim (Bool-cases (eqb_ℤ (created_for s t w).result (pos 0))) [
      | inl ok ↦
          let started : spawn os fn option flags s t w
              ≡ release os fn option flags (thread_of s t w) (created_for s t w).world =
            ground (arith, threaded) in
          subst (λ r. r.0 ≡ true → Served s w r.2) (sym started) (by_thread t w ok) good
      | inr bad ↦ absurd (ground (arith, threaded))
    ]

    serve_client-Served :
        (client : ℤ) (addr : SockAddrIn) (t : NcThread) (w : W)
        → let r = serve_client os fn option flags client addr t w in
          r.0 ≡ true → Served (made os fn option flags client addr) w r.2
    unfolding serve_client
    serve_client-Served client addr t w good = elim (Bool-cases (os.allocates w)) [
      | inr out ↦ absurd (ground (arith, out))
      | inl got ↦ elim (Bool-cases (eqb_ℤ option nc_threaded)) [
        | inl apart ↦
            let run : serve_client os fn option flags client addr t w
                ≡ spawn os fn option flags s t w =
              rw (got, apart) refl in
            subst (λ r. r.0 ≡ true → Served s w r.2) (sym run) (spawn-Served s t w) good
        | inr here ↦
            let run : serve_client os fn option flags client addr t w
                ≡ (true, t, os.call fn (client_socket s) w) =
              rw (got, here) refl in
            subst (λ r. r.0 ≡ true → Served s w r.2) (sym run) (λ e. by_call w) good
      ]
    ]
      where
        s : NcSocket
        s = made os fn option flags client addr

    module _ (R : W → W → Type 0) (f : Follows R) where
      accept_round-Follows :
          (v : Serving W)
          → (accept_round os fn option flags v).ok ≡ true
          → R v.world (accept_round os fn option flags v).world
      unfolding accept_round
      accept_round-Follows v good =
          let a = os.accept v.listener.sockfd v.clientaddr v.world in
          elim (Bool-cases (eqb_ℤ a.client minus_one)) [
            | inl nobody ↦ rw nobody (
                f.then (f.nobody v.listener.sockfd v.clientaddr v.world nobody)
                  (f.then (f.sleeps 100 a.world) (f.others v.listener (os.sleep 100 a.world))))
            | inr client ↦
                let r = serve_client os fn option flags a.client a.addr v.thread a.world in
                let served : r.0 ≡ true = ground arith in
                rw client (
                  f.then
                    (f.client v.listener.sockfd v.clientaddr v.world r.2 client
                      (serve_client-Served a.client a.addr v.thread a.world served))
                    (f.others v.listener r.2))
          ]

      -- The verdict of a state, and how the loop goes on.
      accept_verdict-ok :
          (v : Serving W) → accept_verdict os fn option flags v ≡ some RetCode.ok → v.ok ≡ true
      unfolding accept_verdict
      accept_verdict-ok v e = ground arith

      accept_verdict-none :
          (v : Serving W) → accept_verdict os fn option flags v ≡ none → v.ok ≡ true
      unfolding accept_verdict
      accept_verdict-none v e = ground arith

      accept_loop-good :
          (fuel : ℕ) (v : Serving W) (l' : Listener) (w' : W)
          → accept_loop os fn option flags fuel v ≡ some (RetCode.ok, l', w')
          → (v.ok ≡ true) × R v.world w'
      unfolding accept_loop
      accept_loop-good zero v l' w' run = absurd (ground arith)
      accept_loop-good (suc fuel) v l' w' run =
          elim (Option-cases (accept_verdict os fn option flags v)) [
            | inl on ↦
                let step : accept_loop os fn option flags (suc fuel) v
                    ≡ accept_loop os fn option flags fuel (accept_round os fn option flags v) =
                  rw (on, accept_loop) refl in
                let (good, rest) =
                  accept_loop-good fuel (accept_round os fn option flags v) l' w'
                    (sym step ∙ run) in
                (accept_verdict-none v on, f.then (accept_round-Follows v good) rest)
            | inr (code, e) ↦
                let step : accept_loop os fn option flags (suc fuel) v
                    ≡ some (code, v.listener, v.world) =
                  rw (e, accept_loop) refl in
                let (is_ok, _, same) = ended code (sym step ∙ run) in
                (accept_verdict-ok v (e ∙ ap some is_ok), subst (R v.world) same (f.stays v.world))
          ]
        where
          ended :
              (code : RetCode)
              → ◌≡◌ {A = Option (RetCode × Listener × W)}
                  (some (code, v.listener, v.world))
                  (some (RetCode.ok, l', w'))
              → (code ≡ RetCode.ok) × (v.listener ≡ l') × (v.world ≡ w')
          ended code e = (cc, cc, cc)

      pub accept_loop-Follows :
          (fuel : ℕ) (v : Serving W) (l' : Listener) (w' : W)
          → accept_loop os fn option flags fuel v ≡ some (RetCode.ok, l', w')
          → R v.world w'
      accept_loop-Follows fuel v l' w' run = (accept_loop-good fuel v l' w' run).1
