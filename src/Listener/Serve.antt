-- ===== src/Listener/Serve.antt =====
-- src/ncsocklist.cpp: the loop of `startListening` that accepts connections, and the one that receives
-- datagrams.
use netclass.Common.{
  ℕ, zero, suc, ℤ, pos, minus_one, eqb_ℤ, ◌==◌, not, if◌then◌else◌, Bool, true, false, Option, none,
  some, replicate,
}
use netclass.Consts.{RetCode, nc_threaded, nc_detached, nc_joined, max_dgram_buf_len}
use netclass.Socket.State.{NcSocket, SockAddrIn, of_descriptor, set_ip_addr}
use netclass.Socket.Handle.{destroy}
use netclass.Datagram.{new_datagram}
use netclass.Thread.Defs.{NcThread, start, join, detach}
use netclass.Listener.Defs.{Listener, ListenOs, client_socket, datagram}

module _ (W : Type 0) where
  -- The state of the loop that accepts; `ok` is false when startListening returns NC_FAILED.
  pub record Serving : Type 0 where
    pub ok : Bool
    pub thread : NcThread
    pub clientaddr : SockAddrIn
    pub listener : Listener
    pub world : W

module _ {W : Type 0} (os : ListenOs W) (fn : ℕ) (option flags : ℤ) where
  -- `new ncSocket(client)` and setIpAddr.
  abbrev pub made : ℤ → SockAddrIn → NcSocket
  made client addr = set_ip_addr (of_descriptor os.zeroed client) addr.sin_addr

  -- detach or join of the thread that has been started.
  unfoldable pub release : NcThread → W → Bool × NcThread × W
  release t w =
      if eqb_ℤ flags (pos nc_detached)
      then (let (code, t', w') = detach os.threads os.have_threads t w in
          (elim code [ RetCode.failed ↦ false | _ ↦ true ], t', w'))
      else if eqb_ℤ flags (pos nc_joined)
      then (let (code, t', w') = join os.threads os.have_threads t w in
          (elim code [ RetCode.failed ↦ false | _ ↦ true ], t', w'))
      else (true, t, w)

  -- A client for a new thread.
  unfoldable pub spawn : NcSocket → NcThread → W → Bool × NcThread × W
  unfolding release
  spawn s t w =
      let (code, t', w') = start os.threads os.have_threads fn (client_socket s) t w in
      elim code [
        | RetCode.failed ↦ let (s', w'') = destroy os.files s w' in (false, t', w'')
        | _ ↦ release t' w'
      ]

  -- The body of the if that follows accept.
  unfoldable pub serve_client : ℤ → SockAddrIn → NcThread → W → Bool × NcThread × W
  unfolding spawn
  serve_client client addr t w =
      if os.allocates w
      then (if eqb_ℤ option nc_threaded
          then spawn (made client addr) t w
          else (true, t, os.call fn (client_socket (made client addr)) w))
      else (false, t, w)

  -- The body of the loop that accepts, up to its last test.
  unfoldable pub accept_round : Serving W → Serving W
  unfolding serve_client
  accept_round v =
      let a = os.accept v.listener.sockfd v.clientaddr v.world in
      if not (eqb_ℤ a.client minus_one)
      then (let (ok, t, w) = serve_client a.client a.addr v.thread a.world in
          let (l, w') = os.others v.listener w in
          record { ok = ok; thread = t; clientaddr = a.addr; listener = l; world = w' })
      else (let (l, w') = os.others v.listener (os.sleep 100 a.world) in
          record v { clientaddr = a.addr; listener = l; world = w' })

  -- How startListening goes on after a round: it returns a code, or `none`.
  unfoldable pub accept_verdict : Serving W → Option RetCode
  accept_verdict v =
      if not v.ok
      then some RetCode.failed
      else if v.listener.listening == 0
      then some RetCode.ok
      else none

  -- while(m_listening), on fuel; the test is also made at the end of the body.
  unfoldable pub accept_loop : ℕ → Serving W → Option (RetCode × Listener × W)
  unfolding accept_round accept_verdict
  accept_loop zero v = none
  accept_loop (suc fuel) v = elim (accept_verdict v) [
    | some code ↦ some (code, v.listener, v.world)
    | none ↦ accept_loop fuel (accept_round v)
  ]

module _ (W : Type 0) where
  -- The state of the loop that receives; `defined` is false after a copy whose effect is undefined.
  pub record Receiving : Type 0 where
    pub defined : Bool
    pub clientaddr : SockAddrIn
    pub listener : Listener
    pub world : W

module _ {W : Type 0} (os : ListenOs W) (fn : ℕ) where
  -- The body of the loop that receives. `client` is still 0.
  unfoldable pub receive_round : Receiving W → Receiving W
  receive_round v =
      let a = os.recv_from v.listener.sockfd (replicate max_dgram_buf_len 0) v.clientaddr v.world in
      elim (new_datagram (os.fresh_bytes a.world) (pos 0) a.addr a.buf a.count) [
        | none ↦ record v { defined = false; clientaddr = a.addr; world = a.world }
        | some d ↦
            let (l, w) = os.others v.listener (os.call fn (datagram d) a.world) in
            record v { clientaddr = a.addr; listener = l; world = w }
      ]

  -- while(m_listening) of the datagrams, on fuel. `none` in place of the code is undefined behaviour.
  unfoldable pub receive_loop : ℕ → Receiving W → Option (Option RetCode × Listener × W)
  unfolding receive_round
  receive_loop zero v = none
  receive_loop (suc fuel) v = elim (not v.defined) [
    | true ↦ some (none, v.listener, v.world)
    | false ↦ elim (v.listener.listening == 0) [
      | true ↦ some (some RetCode.ok, v.listener, v.world)
      | false ↦ receive_loop fuel (receive_round v)
    ]
  ]
