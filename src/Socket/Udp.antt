-- ===== src/Socket/Udp.antt =====
-- src/ncsocket.cpp: a UDP socket: the address that `connect` resolves, and the datagrams of `writeData`.
use netclass.Common.{
  ℕ, suc, ℤ, pos, ◌≡◌, ◌≢◌, refl, sym, ap, ◌∙◌, false, inl, inr, List, ◌∷◌, ◌++◌, replicate, Option,
  some, arith, eqb_ℤ, Bool-cases,
}
use netclass.Consts.{RetCode, socktype_tcpip}
use netclass.Socket.State.{NcSocket, SockAddrIn}
use netclass.Socket.Connect.Defs.{ConnectOs, connect}
use netclass.Socket.Connect.Paths.{
  opened, answer, aimed, aimed-SameTarget, answer-head, connect-zero, connect-lost, connect-found,
  start_attempts-kept,
}
use netclass.Socket.Poll.Os.{PollOs}
use netclass.Socket.Poll.Loop.{Transfer}
use netclass.Socket.Poll.Calls.{begin, writing, write_data, send_call}
use netclass.Socket.Poll.Kept.{CallsKeep, transfer-Keeps}

module _ {W : Type 0} (line : PollOs W) (sent_to : W → List SockAddrIn) where
  -- A log of the addresses that sendto has been given, the last one first.
  pub record AddressContract : Type 0 where
    pub logs :
        (fd : ℤ) (bytes : List ℕ) (flags : ℕ) (to : SockAddrIn) (w : W)
        → sent_to (line.sendto fd bytes flags to w).world ≡ to ∷ sent_to w
    pub polls :
        (fd : ℤ) (events : ℕ) (ms : ℤ) (w : W)
        → sent_to (line.poll fd events ms w).world ≡ sent_to w
    pub shuts : (fd : ℤ) (how : ℕ) (w : W) → sent_to (line.shutdown fd how w) ≡ sent_to w

  -- A UDP socket that writes to `to`, and has written to no other address since `w`.
  pub record Aims (to : SockAddrIn) (w : W) (s : NcSocket) (w' : W) : Type 0 where
    pub udp : eqb_ℤ s.socktype socktype_tcpip ≡ false
    pub aim : s.to ≡ to
    pub count : ℕ
    pub log : sent_to w' ≡ replicate count to ++ sent_to w

  writing-CallsKeep :
      (buf_len : ℤ) (to : SockAddrIn) (w : W)
      → AddressContract
      → CallsKeep line (writing line) buf_len (Aims to w)
  unfolding writing send_call
  writing-CallsKeep buf_len to w c = record {
    polls = λ s w₁ ms a. record {
      udp = a.udp;
      aim = a.aim;
      count = a.count;
      log = c.polls s.sockfd line.pollout ms w₁ ∙ a.log;
    };
    moves = λ t a. record {
      udp = a.udp;
      aim = a.aim;
      count = suc a.count;
      log = rw a.udp (c.logs _ _ _ _ _ ∙ rw (a.aim, a.log) refl);
    };
    shuts = λ s fd w₁ a. record {
      udp = a.udp;
      aim = a.aim;
      count = a.count;
      log = c.shuts fd line.arch.sd_send w₁ ∙ a.log;
    };
  }

  write_data-Aims :
      (fuel : ℕ) (s : NcSocket) (buf : List ℕ) (len : ℤ) (num : Option ℤ) (w : W) (code : RetCode)
      (t : Transfer W)
      → AddressContract
      → eqb_ℤ s.socktype socktype_tcpip ≡ false
      → write_data line fuel s buf len num w ≡ some (code, t)
      → Aims s.to w t.sock t.world
  unfolding write_data
  write_data-Aims fuel s buf len num w code t c udp e =
      transfer-Keeps line (writing line) len (Aims s.to w) fuel (begin line s buf len num w) code t
        (writing-CallsKeep len s.to w c) (record { udp = udp; aim = refl; count = 0; log = refl }) e

module _ {W : Type 0} (net : ConnectOs W) where
  -- The address that a UDP socket writes to is the one that it is connected to.
  pub record Aimed (s s' : NcSocket) : Type 0 where
    pub family : s'.to.sin_family ≡ net.arch.af_inet
    pub to_port : s'.to.sin_port ≡ net.htons s.port
    pub address : s'.to.sin_addr ≡ s'.ipaddr
    pub still_udp : eqb_ℤ s'.socktype socktype_tcpip ≡ false

  aimed-to :
      (stack : SockAddrIn) (s : NcSocket) (w : W)
      → eqb_ℤ s.socktype socktype_tcpip ≡ false
      → (aimed net stack s w).to ≡ (answer net stack s w).servaddr
  aimed-to stack s w udp = rw udp refl

  failed_code :
      (s₁ s' : NcSocket) (w₁ w' : W) (code : RetCode)
      → ◌≡◌ {A = Option (RetCode × NcSocket × W)}
          (some (RetCode.failed, s₁, w₁))
          (some (code, s', w'))
      → code ≡ RetCode.failed
  failed_code s₁ s' w₁ w' code e = ground arith

  connect-Aimed :
      (fuel : ℕ) (stack : SockAddrIn) (s : NcSocket) (w : W) (code : RetCode) (s' : NcSocket)
      (w' : W)
      → eqb_ℤ s.socktype socktype_tcpip ≡ false
      → code ≢ RetCode.failed
      → connect net fuel stack s w ≡ some (code, s', w')
      → Aimed s s'
  connect-Aimed fuel stack s w code s' w' udp fine e =
      elim (Bool-cases (eqb_ℤ (opened net s w).0 (pos 0))) [
        | inl zero_fd ↦
            absurd
              (fine (failed_code _ _ _ _ _ (sym (connect-zero net stack s w fuel zero_fd) ∙ e)))
        | inr good_fd ↦ elim (Bool-cases (answer net stack s w).found) [
          | inr lost ↦ absurd (
              fine (failed_code _ _ _ _ _ (sym (connect-lost net stack s w fuel good_fd lost) ∙ e)))
          | inl found ↦
              let same =
                start_attempts-kept net fuel (aimed net stack s w) (answer net stack s w).servaddr
                  (answer net stack s w).world code s' w'
                  (sym (connect-found net stack s w fuel good_fd found) ∙ e) in
              let to = ap (λ k. k.to) same ∙ aimed-to stack s w udp in
              let head = answer-head net stack s w in
              record {
                family = ap (λ k. k.sin_family) to ∙ head.0;
                to_port = ap (λ k. k.sin_port) to ∙ head.1;
                address = ap (λ k. k.sin_addr) to ∙ sym (ap (λ k. k.ipaddr) same);
                still_udp =
                    ap (λ k. eqb_ℤ k socktype_tcpip)
                      (ap (λ k. k.socktype) same ∙ (aimed-SameTarget net stack s w).same_type)
                    ∙ udp;
              }
        ]
      ]

-- When connect on a UDP socket has not failed, every datagram that a writeData then sends goes to one
-- address: that of the family AF_INET, the port of the socket, and the IP address that connect stashed.
pub write_data-connect :
    {W : Type 0} (net : ConnectOs W) (line : PollOs W) (sent_to : W → List SockAddrIn)
    (fuel fuel' : ℕ) (stack : SockAddrIn) (s : NcSocket) (w : W) (code : RetCode) (s' : NcSocket)
    (w' : W) (buf : List ℕ) (len : ℤ) (num : Option ℤ) (code' : RetCode) (t : Transfer W)
    → AddressContract line sent_to
    → eqb_ℤ s.socktype socktype_tcpip ≡ false
    → code ≢ RetCode.failed
    → connect net fuel stack s w ≡ some (code, s', w')
    → write_data line fuel' s' buf len num w' ≡ some (code', t)
    → Aimed net s s' × (count : ℕ) × (sent_to t.world ≡ replicate count s'.to ++ sent_to w')
write_data-connect net line sent_to fuel fuel' stack s w code s' w' buf len num code' t c udp fine e
      e' =
    let a = connect-Aimed net fuel stack s w code s' w' udp fine e in
    let b = write_data-Aims line sent_to fuel' s' buf len num w' code' t c a.still_udp e' in
    (a, b.count, b.log)
