-- ===== src/Listener/Failing.antt =====
-- src/ncsocklist.cpp: why a round of the loop that accepts fails.
use netclass.Common.{ℕ, ℤ, pos, ◌≡◌, inl, inr, eqb_ℤ, true, false, arith, Bool-cases}
use netclass.Socket.State.{SockAddrIn, NcSocket}
use netclass.Thread.Defs.{NcThread, start, join, detach}
use netclass.Listener.Defs.{ListenOs, client_socket}
use netclass.Listener.Serve.{Serving, made, release, spawn, serve_client, accept_round}

module _ {W : Type 0} (os : ListenOs W) (fn : ℕ) (option flags : ℤ) where
  -- A thread for a client could not be created, or not be detached or joined.
  pub data ThreadError : Type 0 where
    not_created :
        (t : NcThread) (s : NcSocket) (w : W)
        → eqb_ℤ (os.threads.create t.handle fn (client_socket s) w).result (pos 0) ≡ false
        → ThreadError
    not_detached :
        (t : NcThread) (w : W)
        → eqb_ℤ (os.threads.detach t.handle w).0 (pos 0) ≡ false
        → ThreadError
    not_joined :
        (t : NcThread) (w : W)
        → eqb_ℤ (os.threads.join t.handle t.ret_val w).result (pos 0) ≡ false
        → ThreadError

  release-fails :
      (t : NcThread) (w : W)
      → os.have_threads ≡ true
      → (release os fn option flags t w).0 ≡ false
      → ThreadError
  unfolding release join detach
  release-fails t w threaded e =
      elim (Bool-cases (eqb_ℤ (os.threads.detach t.handle w).0 (pos 0))) [
        | inr bad ↦ not_detached t w bad
        | inl fine ↦ not_joined t w (ground arith)
      ]

  spawn-fails :
      (s : NcSocket) (t : NcThread) (w : W)
      → os.have_threads ≡ true
      → (spawn os fn option flags s t w).0 ≡ false
      → ThreadError
  unfolding spawn start
  spawn-fails s t w threaded e =
      let called = os.threads.create t.handle fn (client_socket s) w in
      elim (Bool-cases (eqb_ℤ called.result (pos 0))) [
        | inr bad ↦ not_created t s w bad
        | inl fine ↦
            release-fails (record t { handle = called.stored }) called.world threaded (ground arith)
      ]

  serve_client-fails :
      (client : ℤ) (addr : SockAddrIn) (t : NcThread) (w : W)
      → os.have_threads ≡ true
      → os.allocates w ≡ true
      → (serve_client os fn option flags client addr t w).0 ≡ false
      → ThreadError
  unfolding serve_client
  serve_client-fails client addr t w threaded room e =
      spawn-fails (made os fn option flags client addr) t w threaded (ground arith)

  pub accept_round-fails :
      (v : Serving W)
      → os.have_threads ≡ true
      → ((w : W) → os.allocates w ≡ true)
      → v.ok ≡ true
      → (accept_round os fn option flags v).ok ≡ false
      → ThreadError
  unfolding accept_round
  accept_round-fails v threaded room fine e =
      let a = os.accept v.listener.sockfd v.clientaddr v.world in
      serve_client-fails a.client a.addr v.thread a.world threaded (room a.world) (ground arith)
