-- ===== src/Listener/Ending.antt =====
-- src/ncsocklist.cpp: the loop of `startListening` that accepts connections, while another thread stops
-- the listener in the end.
use netclass.Common.{ℕ, ℤ, ◌≤◌, ◌<◌, ◌≡◌, ◌⊎◌, arith}
use netclass.Socket.State.{SockAddrIn, NcSocket, of_descriptor, set_ip_addr}
use netclass.Socket.Handle.{destroy}
use netclass.Thread.Defs.{NcThread, start, join, detach}
use netclass.Listener.Defs.{Listener, ListenOs, client_socket}
use netclass.Listener.Serve.{Serving, made, release, spawn, serve_client, accept_round}

module _ {W : Type 0} (os : ListenOs W) (patience : W → ℕ) where
  -- `patience` bounds how often the other threads are heard before one of them stops the listener; no
  -- call of the loop adds to it.
  pub record EndContract : Type 0 where
    pub accepts : (fd : ℤ) (a : SockAddrIn) (w : W) → patience (os.accept fd a w).world ≤ patience w
    pub calls :
        (fn : ℕ) (s : NcSocket) (w : W) → patience (os.call fn (client_socket s) w) ≤ patience w
    pub creates :
        (old fn : ℕ) (s : NcSocket) (w : W)
        → patience (os.threads.create old fn (client_socket s) w).world ≤ patience w
    pub closes : (fd : ℤ) (w : W) → patience (os.files.close fd w) ≤ patience w
    pub joins : (h old : ℕ) (w : W) → patience (os.threads.join h old w).world ≤ patience w
    pub detaches : (h : ℕ) (w : W) → patience (os.threads.detach h w).1 ≤ patience w
    pub sleeps : (ms : ℕ) (w : W) → patience (os.sleep ms w) ≤ patience w
    pub others_stop :
        (l : Listener) (w : W)
        → ((os.others l w).0.listening ≡ 0) ⊎ (patience (os.others l w).1 < patience w)

  module _ (fn : ℕ) (option flags : ℤ) (c : EndContract) where
    release-patience :
        (t : NcThread) (w : W) → patience (release os fn option flags t w).2 ≤ patience w
    unfolding release join detach
    release-patience t w = ground (arith, c.joins t.handle t.ret_val w, c.detaches t.handle w)

    spawn-patience :
        (client : ℤ) (addr : SockAddrIn) (t : NcThread) (w : W)
        → patience (spawn os fn option flags (made os fn option flags client addr) t w).2
          ≤ patience w
    unfolding spawn start destroy of_descriptor set_ip_addr
    spawn-patience client addr t w =
        let s = made os fn option flags client addr in
        let called = os.threads.create t.handle fn (client_socket s) w in
        let t' = record t { handle = called.stored } in
        ground (
          arith,
          c.creates t.handle fn s w,
          release-patience t' called.world,
          release-patience t w,
          c.closes client called.world,
          c.closes client w,
        )

    serve_client-patience :
        (client : ℤ) (addr : SockAddrIn) (t : NcThread) (w : W)
        → patience (serve_client os fn option flags client addr t w).2 ≤ patience w
    unfolding serve_client
    serve_client-patience client addr t w =
        ground (
          arith,
          c.calls fn (made os fn option flags client addr) w,
          spawn-patience client addr t w,
        )

    pub accept_round-nearer :
        (v : Serving W)
        → ((accept_round os fn option flags v).listener.listening ≡ 0)
          ⊎ (patience (accept_round os fn option flags v).world < patience v.world)
    unfolding accept_round
    accept_round-nearer v =
        let a = os.accept v.listener.sockfd v.clientaddr v.world in
        let r = serve_client os fn option flags a.client a.addr v.thread a.world in
        ground (
          arith,
          c.accepts v.listener.sockfd v.clientaddr v.world,
          c.sleeps 100 a.world,
          c.others_stop v.listener (os.sleep 100 a.world),
          serve_client-patience a.client a.addr v.thread a.world,
          c.others_stop v.listener r.2,
        )
