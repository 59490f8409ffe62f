-- ===== src/Socket/Connect/Ends.antt =====
-- src/ncsocket.cpp: `ncSocket::connect` returns.
use netclass.Common.{
  ℕ, pos, ◌+◌, ◌/◌, ◌≤◌, ◌<◌, ◌≡◌, ◌∙◌, inl, inr, some, arith, word_mod, eqb_ℤ, Bool-cases,
}
use netclass.Consts.{RetCode}
use netclass.Socket.State.{NcSocket, SockAddrIn}
use netclass.Socket.Connect.Defs.{ConnectOs, nonblocking, start_attempts, connect}
use netclass.Socket.Connect.Attempts.{attempts-Returns}
use netclass.Socket.Connect.Paths.{
  opened, answer, aimed, aimed-SameTarget, connect-zero, connect-lost, connect-found,
}

module _ {W : Type 0} (os : ConnectOs W) where
  start_attempts-Returns :
      (fuel : ℕ) (s : NcSocket) (a : SockAddrIn) (w : W)
      → s.timeout < word_mod
      → s.timeout / 100 + 1 ≤ fuel
      → (code : RetCode) × (s' : NcSocket) × (w' : W) × (start_attempts os fuel s a w
          ≡ some (code, s', w'))
  unfolding start_attempts
  start_attempts-Returns fuel s a w small enough =
      let (code, w', e) =
        attempts-Returns os s.sockfd a s.timeout fuel (s.timeout / 100 + 1) 0
          (nonblocking os s.sockfd w) small (omega arith) (omega arith) enough in
      (code, record s { ipaddr = a.sin_addr }, w', rw (e, start_attempts))

  -- connect returns, after at most timeout / 100 + 1 calls of ::connect, whatever the system answers.
  pub connect-Returns :
      (fuel : ℕ) (stack : SockAddrIn) (s : NcSocket) (w : W)
      → s.timeout < word_mod
      → s.timeout / 100 + 1 ≤ fuel
      → (code : RetCode) × (s' : NcSocket) × (w' : W) × (connect os fuel stack s w
          ≡ some (code, s', w'))
  connect-Returns fuel stack s w small enough =
      elim (Bool-cases (eqb_ℤ (opened os s w).0 (pos 0))) [
        | inl zero_fd ↦ (_, _, _, connect-zero os stack s w fuel zero_fd)
        | inr good_fd ↦ elim (Bool-cases (answer os stack s w).found) [
          | inl found ↦
              let same = (aimed-SameTarget os stack s w).same_timeout in
              let (code, s', w', e) =
                start_attempts-Returns fuel (aimed os stack s w) (answer os stack s w).servaddr
                  (answer os stack s w).world (rw same small) (rw same enough) in
              (code, s', w', connect-found os stack s w fuel good_fd found ∙ e)
          | inr lost ↦ (_, _, _, connect-lost os stack s w fuel good_fd lost)
        ]
      ]
