-- ===== src/Listener/Order.antt =====
-- src/ncsocklist.cpp: the order in which `startListening` hands over the connections that it accepts.
use netclass.Common.{
  ℕ, ℤ, pos, minus_one, ◌≡◌, ◌∙◌, refl, sym, ap, eqb_ℤ, true, false, List, [], ◌∷◌, ◌++◌,
  append-nil, append_assoc, some, arith,
}
use netclass.Consts.{RetCode}
use netclass.Socket.State.{
  SockAddrIn, NcSocket, of_descriptor, get_ip_addr, get_sockfd, set_ip_addr,
}
use netclass.Thread.Defs.{NcThread, join, detach}
use netclass.Listener.Defs.{Listener, ListenOs, client_socket}
use netclass.Listener.Good.{
  created_for, thread_of, Served, by_call, by_thread, Follows, accept_loop-Follows,
}
use netclass.Listener.Serve.{Serving, made, release, accept_loop}

module _ {W : Type 0} (os : ListenOs W) (came handed : W → List (ℤ × ℕ)) where
  -- What a callback reads from the socket that it is given: the descriptor and the address.
  abbrev pub seen : NcSocket → ℤ × ℕ
  seen s = (get_sockfd s, get_ip_addr s)

  abbrev pub Same : W → W → Type 0
  Same w w' = (came w' ≡ came w) × (handed w' ≡ handed w)

  -- `came` are the connections in the order in which accept has given them, each with its descriptor and
  -- the peer's address, and `handed` what the callbacks have been given, in this order.
  pub record OrderContract : Type 0 where
    pub threaded : os.have_threads ≡ true
    pub nobody :
        (fd : ℤ) (a : SockAddrIn) (w : W)
        → eqb_ℤ (os.accept fd a w).client minus_one ≡ true
        → Same w (os.accept fd a w).world
    pub client :
        (fd : ℤ) (a : SockAddrIn) (w : W)
        → let c = os.accept fd a w in
          eqb_ℤ c.client minus_one ≡ false
          → (came c.world ≡ came w ++ ((c.client, c.addr.sin_addr) ∷ []))
            × (handed c.world ≡ handed w)
    pub calls :
        (fn : ℕ) (s : NcSocket) (w : W)
        → let w' = os.call fn (client_socket s) w in
          (came w' ≡ came w) × (handed w' ≡ handed w ++ (seen s ∷ []))
    pub creates :
        (old fn : ℕ) (s : NcSocket) (w : W)
        → let c = os.threads.create old fn (client_socket s) w in
          eqb_ℤ c.result (pos 0) ≡ true
          → (came c.world ≡ came w) × (handed c.world ≡ handed w ++ (seen s ∷ []))
    pub joins : (h old : ℕ) (w : W) → Same w (os.threads.join h old w).world
    pub detaches : (h : ℕ) (w : W) → Same w (os.threads.detach h w).1
    pub sleeps : (ms : ℕ) (w : W) → Same w (os.sleep ms w)
    pub others_keep : (l : Listener) (w : W) → Same w (os.others l w).1

  -- Between two states the same connections have come and been handed over, in the same order.
  abbrev pub InOrder : W → W → Type 0
  InOrder w w' =
      (clients : List (ℤ × ℕ)) × (came w' ≡ came w ++ clients) × (handed w' ≡ handed w ++ clients)

  Same-InOrder : {w w' : W} → Same w w' → InOrder w w'
  Same-InOrder {w} {w'} (c, h) =
      ([], c ∙ sym (append-nil (came w)), h ∙ sym (append-nil (handed w)))

  InOrder-trans : (w w' w'' : W) → InOrder w w' → InOrder w' w'' → InOrder w w''
  InOrder-trans w w' w'' (xs, c, h) (ys, c', h') = (
    xs ++ ys,
    c' ∙ ap (λ l. l ++ ys) c ∙ append_assoc (came w) xs ys,
    h' ∙ ap (λ l. l ++ ys) h ∙ append_assoc (handed w) xs ys,
  )

  module _ (fn : ℕ) (option flags : ℤ) (c : OrderContract) where
    release-Same : (t : NcThread) (w : W) → Same w (release os fn option flags t w).2
    unfolding release join detach
    release-Same t w =
        ground (arith, c.threaded, c.joins t.handle t.ret_val w, c.detaches t.handle w)

    -- Handing over `s` adds what is seen of it to what has been handed over.
    Served-handed :
        (s : NcSocket) {w w' : W}
        → Served os fn option flags s w w'
        → (came w' ≡ came w) × (handed w' ≡ handed w ++ (seen s ∷ []))
    Served-handed s (by_call w) = c.calls fn s w
    Served-handed s (by_thread t w ok good) =
        let (same_came, more) = c.creates t.handle fn s w ok in
        let (kept, kept') =
          release-Same (thread_of os fn option flags s t w)
            (created_for os fn option flags s t w).world in
        (kept ∙ same_came, kept' ∙ more)

    -- The object made for a connection carries its descriptor and the peer's address.
    made-seen :
        (client : ℤ) (addr : SockAddrIn)
        → seen (made os fn option flags client addr) ≡ (client, addr.sin_addr)
    unfolding of_descriptor set_ip_addr get_sockfd get_ip_addr
    made-seen client addr = refl

    client-InOrder :
        (fd : ℤ) (a : SockAddrIn) (w w' : W)
        → let k = os.accept fd a w in
          eqb_ℤ k.client minus_one ≡ false
          → Served os fn option flags (made os fn option flags k.client k.addr) k.world w'
          → InOrder w w'
    client-InOrder fd a w w' arrived served =
        let k = os.accept fd a w in
        let (one_came, kept) = c.client fd a w arrived in
        let (same_came, one_handed) = Served-handed _ served in
        (
          (k.client, k.addr.sin_addr) ∷ [],
          same_came ∙ one_came,
          one_handed
              ∙ ap (λ l. l ++ (seen (made os fn option flags k.client k.addr) ∷ [])) kept
              ∙ ap (λ x. handed w ++ (x ∷ [])) (made-seen k.client k.addr),
        )

    InOrder-Follows : Follows os fn option flags InOrder
    InOrder-Follows = record {
      stays = λ w. Same-InOrder (refl, refl);
      then = λ {w} {w'} {w''} first second. InOrder-trans w w' w'' first second;
      nobody = λ fd a w none_came. Same-InOrder (c.nobody fd a w none_came);
      client = client-InOrder;
      sleeps = λ ms w. Same-InOrder (c.sleeps ms w);
      others = λ l w. Same-InOrder (c.others_keep l w);
    }

    -- When the loop that accepts has returned NC_OK, the callbacks have been given the connections that
    -- have come, each once, in the order in which they came, each as an object over the connection's
    -- descriptor that has the peer's address.
    pub accept_loop-InOrder :
        (fuel : ℕ) (v : Serving W) (l' : Listener) (w' : W)
        → accept_loop os fn option flags fuel v ≡ some (RetCode.ok, l', w')
        → InOrder v.world w'
    accept_loop-InOrder = accept_loop-Follows os fn option flags c.threaded InOrder InOrder-Follows
