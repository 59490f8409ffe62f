-- ===== src/Listener/Handing.antt =====
-- src/ncsocklist.cpp: what becomes of a connection in one round of the loop of `startListening`.
use netclass.Common.{
  ℕ, suc, ℤ, pos, minus_one, ◌≡◌, ◌∙◌, ◌⊎◌, inl, inr, eqb_ℤ, ltb_ℤ, true, false, arith, Bool-cases,
}
use netclass.Socket.State.{SockAddrIn, NcSocket, of_descriptor, set_ip_addr}
use netclass.Socket.Handle.{destroy}
use netclass.Thread.Defs.{NcThread, start, join, detach}
use netclass.Listener.Defs.{Listener, ListenOs, client_socket}
use netclass.Listener.Serve.{Serving, made, release, spawn, serve_client, accept_round}

module _ {W : Type 0} (os : ListenOs W) (loose : W → ℕ) where
  -- `loose` counts the connections that have been accepted, and neither handed to a callback nor
  -- closed. A client is above 0 or -1; a thread that was created has got one, one that was not has not.
  pub record ClientContract : Type 0 where
    pub threaded : os.have_threads ≡ true
    pub allocates : (w : W) → os.allocates w ≡ true
    pub accepts :
        (fd : ℤ) (a : SockAddrIn) (w : W)
        → ((eqb_ℤ (os.accept fd a w).client minus_one ≡ true)
            × (loose (os.accept fd a w).world ≡ loose w))
          ⊎ ((eqb_ℤ (os.accept fd a w).client minus_one ≡ false)
              × (ltb_ℤ (pos 0) (os.accept fd a w).client ≡ true)
              × (loose (os.accept fd a w).world ≡ suc (loose w)))
    pub calls :
        (fn : ℕ) (s : NcSocket) (w : W) (k : ℕ)
        → loose w ≡ suc k
        → loose (os.call fn (client_socket s) w) ≡ k
    pub creates :
        (old fn : ℕ) (s : NcSocket) (w : W) (k : ℕ)
        → loose w ≡ suc k
        → eqb_ℤ (os.threads.create old fn (client_socket s) w).result (pos 0) ≡ true
        → loose (os.threads.create old fn (client_socket s) w).world ≡ k
    pub create_fails :
        (old fn : ℕ) (s : NcSocket) (w : W)
        → eqb_ℤ (os.threads.create old fn (client_socket s) w).result (pos 0) ≡ false
        → loose (os.threads.create old fn (client_socket s) w).world ≡ loose w
    pub closes : (fd : ℤ) (w : W) (k : ℕ) → loose w ≡ suc k → loose (os.files.close fd w) ≡ k
    pub joins : (h old : ℕ) (w : W) → loose (os.threads.join h old w).world ≡ loose w
    pub detaches : (h : ℕ) (w : W) → loose (os.threads.detach h w).1 ≡ loose w
    pub sleeps : (ms : ℕ) (w : W) → loose (os.sleep ms w) ≡ loose w
    pub others_keep : (l : Listener) (w : W) → loose (os.others l w).1 ≡ loose w

  module _ (fn : ℕ) (option flags : ℤ) where
    release-loose :
        (t : NcThread) (w : W) → ClientContract → loose (release os fn option flags t w).2 ≡ loose w
    unfolding release join detach
    release-loose t w c =
        ground (arith, c.threaded, c.joins t.handle t.ret_val w, c.detaches t.handle w)

    spawn-loose :
        (client : ℤ) (addr : SockAddrIn) (t : NcThread) (w : W) (k : ℕ)
        → ClientContract
        → loose w ≡ suc k
        → ltb_ℤ (pos 0) client ≡ true
        → loose (spawn os fn option flags (made os fn option flags client addr) t w).2 ≡ k
    unfolding spawn start destroy of_descriptor set_ip_addr
    spawn-loose client addr t w k c one good =
        let s = made os fn option flags client addr in
        let called = os.threads.create t.handle fn (client_socket s) w in
        elim (Bool-cases (eqb_ℤ called.result (pos 0))) [
          | inl ok ↦
              let t' = record t { handle = called.stored } in
              ground (
                arith,
                c.threaded,
                c.creates t.handle fn s w k one ok,
                release-loose t' called.world c,
              )
          | inr bad ↦
              let same = c.create_fails t.handle fn s w bad in
              ground (arith, c.threaded, c.closes client called.world k (same ∙ one))
        ]

    serve_client-loose :
        (client : ℤ) (addr : SockAddrIn) (t : NcThread) (w : W) (k : ℕ)
        → ClientContract
        → loose w ≡ suc k
        → ltb_ℤ (pos 0) client ≡ true
        → loose (serve_client os fn option flags client addr t w).2 ≡ k
    unfolding serve_client
    serve_client-loose client addr t w k c one good = ground (
      arith,
      c.allocates w,
      c.calls fn (made os fn option flags client addr) w k one,
      spawn-loose client addr t w k c one good,
    )

    pub accept_round-loose :
        (v : Serving W)
        → ClientContract
        → loose (accept_round os fn option flags v).world ≡ loose v.world
    unfolding accept_round
    accept_round-loose v c =
        let a = os.accept v.listener.sockfd v.clientaddr v.world in
        elim (c.accepts v.listener.sockfd v.clientaddr v.world) [
          | inl (nobody, same) ↦
              ground (arith, c.sleeps 100 a.world, c.others_keep v.listener (os.sleep 100 a.world))
          | inr (client, good, more) ↦
              let r = serve_client os fn option flags a.client a.addr v.thread a.world in
              ground (
                arith,
                c.others_keep v.listener r.2,
                serve_client-loose a.client a.addr v.thread a.world (loose v.world) c more good,
              )
        ]
