-- ===== src/Socket/Connect/Paths.antt =====
-- src/ncsocket.cpp: the three ways through `ncSocket::connect`.
use netclass.Common.{
  ℕ, ℤ, pos, ◌≡◌, true, false, some, arith, eqb_ℤ, if◌then◌else◌, inl, inr, Option-cases,
}
use netclass.Consts.{RetCode, socktype_tcpip}
use netclass.Socket.State.{NcSocket, SockAddrIn}
use netclass.Socket.Connect.Defs.{
  ConnectOs, attempts, nonblocking, address_head, store_addr, resolve, Resolved, start_attempts,
  connect,
}

-- The members that connect leaves alone; m_to is among them on a TCP socket.
pub record SameTarget (s s' : NcSocket) : Type 0 where
  pub same_stream : s'.stdiofd ≡ s.stdiofd
  pub same_type : s'.socktype ≡ s.socktype
  pub same_timeout : s'.timeout ≡ s.timeout
  pub same_polltime : s'.polltime ≡ s.polltime
  pub same_port : s'.port ≡ s.port
  pub same_host : s'.hostname ≡ s.hostname

-- Resolving leaves the family and the port of the address.
module _ {W : Type 0} (os : ConnectOs W) (s : NcSocket) (a : SockAddrIn) (w : W) where
  resolve-head :
      ((resolve os s a w).servaddr.sin_family ≡ a.sin_family)
      × ((resolve os s a w).servaddr.sin_port ≡ a.sin_port)
  unfolding resolve
  resolve-head = ground arith

module _ {W : Type 0} (os : ConnectOs W) where
  -- The socket call of connect.
  abbrev pub opened : NcSocket → W → ℤ × W
  opened s w =
      os.socket os.arch.af_inet
        (if eqb_ℤ s.socktype socktype_tcpip then os.arch.sock_stream else os.arch.sock_dgram) 0 w

  module _ (stack : SockAddrIn) (s : NcSocket) (w : W) where
    -- The object with the new descriptor, what was resolved for it, and the object after that.
    abbrev pub fresh : NcSocket
    fresh = record s { sockfd = (opened s w).0 }

    abbrev pub answer : Resolved W
    answer = resolve os fresh (address_head os fresh stack) (opened s w).1

    abbrev pub aimed : NcSocket
    aimed = store_addr answer.servaddr fresh

    pub aimed-SameTarget : SameTarget s aimed
    aimed-SameTarget = ground arith

    pub aimed-kept : (aimed.sockfd ≡ (opened s w).0) × (aimed.ipaddr ≡ s.ipaddr)
    aimed-kept = ground arith

    pub answer-head :
        (answer.servaddr.sin_family ≡ os.arch.af_inet)
        × (answer.servaddr.sin_port ≡ os.htons s.port)
    unfolding address_head
    answer-head =
        let a = address_head os fresh stack in
        let h = resolve-head os fresh a (opened s w).1 in (h.0, h.1)

    -- The three ways through connect.
    pub connect-zero :
        (fuel : ℕ)
        → eqb_ℤ (opened s w).0 (pos 0) ≡ true
        → connect os fuel stack s w ≡ some (RetCode.failed, fresh, (opened s w).1)
    unfolding connect
    connect-zero fuel z = ground arith

    pub connect-lost :
        (fuel : ℕ)
        → eqb_ℤ (opened s w).0 (pos 0) ≡ false
        → answer.found ≡ false
        → connect os fuel stack s w ≡ some (RetCode.failed, aimed, answer.world)
    unfolding connect
    connect-lost fuel z f = rw (z, f, connect)

    pub connect-found :
        (fuel : ℕ)
        → eqb_ℤ (opened s w).0 (pos 0) ≡ false
        → answer.found ≡ true
        → connect os fuel stack s w ≡ start_attempts os fuel aimed answer.servaddr answer.world
    unfolding connect
    connect-found fuel z f = rw (z, f, connect)

  -- The loop round ::connect changes no member; the address is stashed before it.
  pub start_attempts-kept :
      (fuel : ℕ) (s : NcSocket) (a : SockAddrIn) (w : W) (code : RetCode) (s' : NcSocket) (w' : W)
      → start_attempts os fuel s a w ≡ some (code, s', w')
      → s' ≡ record s { ipaddr = a.sin_addr }
  unfolding start_attempts
  start_attempts-kept fuel s a w code s' w' e =
      elim (Option-cases (attempts os fuel s.sockfd s.timeout a 0 (nonblocking os s.sockfd w))) [
        | inl out ↦ absurd (ground arith)
        | inr (r, ran) ↦ ground arith
      ]
