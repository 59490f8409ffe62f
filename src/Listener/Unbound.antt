-- ===== src/Listener/Unbound.antt =====
-- src/ncsocklist.cpp: `startListening` on an address that is in use.
use netclass.Common.{
  ℕ, zero, suc, ℤ, pos, minus_one, ◌≡◌, ◌∙◌, refl, ap, inl, inr, eqb_ℤ, true, false, not, Bool,
  ◌==◌, Option, some, none, arith, Bool-cases, if◌then◌else◌, has_bit, uint_of_int, Option-cases,
}
use netclass.Consts.{RetCode, nc_reuseaddr, socktype_tcpip, socktype_udp}
use netclass.Arch.Defs.{set_nonblocking}
use netclass.Socket.State.{SockAddrIn, zero_addr}
use netclass.Thread.Defs.{NcThread, new_thread}
use netclass.Listener.Defs.{Listener, ListenOs}
use netclass.Listener.Serve.{
  Serving, release, spawn, serve_client, accept_round, accept_verdict, accept_loop, Receiving,
  receive_round, receive_loop,
}
use netclass.Listener.Binding.{verdict, bind_loop-step}
use netclass.Listener.Start.{
  bad_args, bind_verdict, bind_loop, serve, bind_and_serve, start_listening,
}

module _ {W : Type 0} (os : ListenOs W) where
  -- The same system where every ::bind succeeds.
  abbrev pub granted : ListenOs W
  granted = record os { bind = λ fd a w. (pos 0, (os.bind fd a w).1) }

  -- Every ::bind fails because the address is in use.
  pub record InUse : Type 0 where
    pub fails : (fd : ℤ) (a : SockAddrIn) (w : W) → eqb_ℤ (os.bind fd a w).0 minus_one ≡ true
    pub in_use :
        (fd : ℤ) (a : SockAddrIn) (w : W)
        → os.arch.addr_in_use (os.last_error (os.bind fd a w).1) ≡ true

  -- A round of a loop calls no ::bind.
  accept_round-granted :
      (fn : ℕ) (option flags : ℤ) (v : Serving W)
      → accept_round os fn option flags v ≡ accept_round granted fn option flags v
  unfolding accept_round serve_client spawn release
  accept_round-granted fn option flags v = refl

  accept_verdict-granted :
      (fn : ℕ) (option flags : ℤ) (v : Serving W)
      → accept_verdict os fn option flags v ≡ accept_verdict granted fn option flags v
  unfolding accept_verdict
  accept_verdict-granted fn option flags v = refl

  receive_round-granted :
      (fn : ℕ) (v : Receiving W) → receive_round os fn v ≡ receive_round granted fn v
  unfolding receive_round
  receive_round-granted fn v = refl

  accept_loop-granted :
      (fn : ℕ) (option flags : ℤ) (fuel : ℕ) (v : Serving W)
      → accept_loop os fn option flags fuel v ≡ accept_loop granted fn option flags fuel v
  unfolding accept_loop
  accept_loop-granted fn option flags zero v = refl
  accept_loop-granted fn option flags (suc fuel) v =
      rw (← accept_verdict-granted fn option flags v, accept_loop)
        (elim (Option-cases (accept_verdict os fn option flags v)) [
          | inl on ↦ rw on (
              accept_loop-granted fn option flags fuel (accept_round os fn option flags v)
              ∙ ap (accept_loop granted fn option flags fuel)
                  (accept_round-granted fn option flags v))
          | inr (code, e) ↦ rw e refl
        ])

  receive_loop-granted :
      (fn fuel : ℕ) (v : Receiving W) → receive_loop os fn fuel v ≡ receive_loop granted fn fuel v
  unfolding receive_loop
  receive_loop-granted fn zero v = refl
  receive_loop-granted fn (suc fuel) v = elim (Bool-cases (not v.defined)) [
    | inl dead ↦ rw (dead, receive_loop) refl
    | inr live ↦ elim (Bool-cases (v.listener.listening == 0)) [
      | inl off ↦ rw (live, off, receive_loop) refl
      | inr on ↦
          rw (live, on, receive_loop)
            (receive_loop-granted fn fuel (receive_round os fn v)
              ∙ ap (receive_loop granted fn fuel) (receive_round-granted fn v))
    ]
  ]

  serve-granted :
      (fuel fn : ℕ) (option flags : ℤ) (thread : NcThread) (l : Listener) (w : W)
      → serve os fuel fn option flags thread l w ≡ serve granted fuel fn option flags thread l w
  unfolding serve
  serve-granted fuel fn option flags thread l w =
      let r = os.listen l.sockfd l.backlog w in
      let v : Serving W = record {
        ok = true;
        thread = thread;
        clientaddr = zero_addr;
        listener = l;
        world = set_nonblocking os.modes os.arch.mode_form l.sockfd r.1;
      } in
      let u : Receiving W = record {
        defined = true;
        clientaddr = zero_addr;
        listener = l;
        world = w;
      } in
      elim (Bool-cases (eqb_ℤ l.socktype socktype_tcpip)) [
        | inl tcp ↦ elim (Bool-cases (eqb_ℤ r.0 minus_one)) [
          | inl deaf ↦ rw (tcp, deaf) refl
          | inr heard ↦ rw (tcp, heard) (rw (accept_loop-granted fn option flags fuel v) refl)
        ]
        | inr other ↦ elim (Bool-cases (eqb_ℤ l.socktype socktype_udp)) [
          | inl udp ↦ rw (other, udp) (receive_loop-granted fn fuel u)
          | inr neither ↦ rw (other, neither) refl
        ]
      ]

  abbrev after :
      ListenOs W
      → ℕ
      → (fn : ℕ) (option flags : ℤ) → NcThread
      → Option (Bool × Listener × W)
      → Option (Option RetCode × Listener × W)
  after system fuel fn option flags thread x = elim x [
    | none ↦ none
    | some (bound, l, w) ↦
        if bound
        then serve system fuel fn option flags thread l w
        else some (some RetCode.failed, l, w)
  ]

  module _ (c : InUse) where
    verdict-bound : (a : SockAddrIn) (l : Listener) (w : W) → verdict os a 0 l w ≡ some true
    unfolding bind_verdict
    verdict-bound a l w = ground (arith, c.fails l.sockfd a w, c.in_use l.sockfd a w)

    -- The first ::bind ends the loop, as one that succeeds does.
    bind_loop-granted :
        (fuel : ℕ) (a : SockAddrIn) (l : Listener) (w : W)
        → bind_loop os fuel a 0 l w ≡ bind_loop granted fuel a 0 l w
    unfolding bind_loop bind_verdict
    bind_loop-granted zero a l w = refl
    bind_loop-granted (suc fuel) a l w =
        bind_loop-step os a fuel 0 l w ∙ rw (verdict-bound a l w) refl

    -- What follows the loop round ::bind.
    bound-granted :
        (fuel : ℕ) (fn : ℕ) (option flags : ℤ) (thread : NcThread)
        (x : Option (Bool × Listener × W))
        → after os fuel fn option flags thread x ≡ after granted fuel fn option flags thread x
    bound-granted fuel fn option flags thread none = refl
    bound-granted fuel fn option flags thread (some (true, l, w)) =
        serve-granted fuel fn option flags thread l w
    bound-granted fuel fn option flags thread (some (false, l, w)) = refl

    bind_and_serve-granted :
        (fuel : ℕ) (stack : NcThread) (fn : ℕ) (option flags : ℤ) (l : Listener) (w : W)
        → bind_and_serve os fuel stack fn option flags l w
          ≡ bind_and_serve granted fuel stack fn option flags l w
    unfolding bind_and_serve
    bind_and_serve-granted fuel stack fn option flags l w =
        let l₁ = record l { listening = 1 } in
        let t = new_thread os.threads os.have_threads stack w in
        let r =
          if has_bit (uint_of_int flags) nc_reuseaddr
          then os.reuse_addr l.sockfd t.1
          else (pos 0, t.1) in
        let addr : SockAddrIn = record zero_addr {
          sin_family = os.arch.af_inet;
          sin_port = os.htons l.port;
          sin_addr = os.any_addr;
        } in
        elim (Bool-cases (eqb_ℤ r.0 minus_one)) [
          | inl bad ↦ rw bad refl
          | inr good ↦ rw good (
              ap (after os fuel fn option flags t.0) (bind_loop-granted fuel addr l₁ r.1)
              ∙ bound-granted fuel fn option flags t.0 (bind_loop granted fuel addr 0 l₁ r.1))
        ]

    -- Where every ::bind fails because the address is in use, startListening does the same, to the code
    -- that it returns, as where every ::bind succeeds.
    pub start_listening-granted :
        (fuel : ℕ) (stack : NcThread) (fn : ℕ) (option flags : ℤ) (l : Listener) (w : W)
        → start_listening os fuel stack fn option flags l w
          ≡ start_listening granted fuel stack fn option flags l w
    unfolding start_listening
    start_listening-granted fuel stack fn option flags l w =
        let type =
          if eqb_ℤ l.socktype socktype_tcpip then os.arch.sock_stream else os.arch.sock_dgram in
        let o = os.socket os.arch.af_inet type 0 w in
        elim (Bool-cases (eqb_ℤ o.0 (pos 0))) [
          | inl bad ↦ rw bad refl
          | inr good ↦ elim (Bool-cases (bad_args fn option flags)) [
            | inl wrong ↦ rw (good, wrong) refl
            | inr right ↦
                rw (good, right)
                  (bind_and_serve-granted fuel stack fn option flags (record l { sockfd = o.0 })
                    o.1)
          ]
        ]
