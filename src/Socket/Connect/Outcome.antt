-- ===== src/Socket/Connect/Outcome.antt =====
-- src/ncsocket.cpp: what `ncSocket::connect` does, on every path.
use netclass.Common.{
  ℕ, pos, ◌<◌, ◌≡◌, refl, sym, ◌∙◌, ◌⊎◌, inl, inr, Option, some, arith, word_mod, eqb_ℤ, Bool-cases,
  Option-cases,
}
use netclass.Consts.{RetCode}
use netclass.Socket.State.{NcSocket, SockAddrIn}
use netclass.Socket.Connect.Defs.{
  ConnectOs, nonblocking, attempts, address_head, resolve, start_attempts, connect, c_string,
}
use netclass.Socket.Connect.Paths.{
  SameTarget, opened, fresh, answer, aimed-SameTarget, aimed-kept, answer-head, connect-zero,
  connect-lost, connect-found,
}
use netclass.Socket.Connect.Sleeping.{
  SleepContract, nonblocking-slept, Attempted, attempts-Attempted,
}

module _ {W : Type 0} (os : ConnectOs W) (slept : W → ℕ) (s : NcSocket) where
  -- The address that ::connect was called with.
  pub record Target (s' : NcSocket) (servaddr : SockAddrIn) : Type 0 where
    pub family : servaddr.sin_family ≡ os.arch.af_inet
    pub to_port : servaddr.sin_port ≡ os.htons s.port
    pub stashed : s'.ipaddr ≡ servaddr.sin_addr

  pub record Connected (w : W) (code : RetCode) (s' : NcSocket) (w' : W) : Type 0 where
    pub members : SameTarget s s'
    pub descriptor : s'.sockfd ≡ (opened os s w).0
    pub ending :
        ((code ≡ RetCode.failed) × (s'.ipaddr ≡ s.ipaddr) × (slept w' ≡ slept w))
        ⊎ ((servaddr : SockAddrIn) × Target s' servaddr
            × Attempted os slept (opened os s w).0 servaddr s.timeout (slept w) code w')

-- Resolving sleeps not.
module _ {W : Type 0} (os : ConnectOs W) (s : NcSocket) (a : SockAddrIn) (w : W) where
  resolve-slept :
      (slept : W → ℕ) → SleepContract os slept → slept (resolve os s a w).world ≡ slept w
  unfolding resolve
  resolve-slept slept c = ground (arith, c.host_by_name_keeps (c_string s.hostname) w)

module _ {W : Type 0} (os : ConnectOs W) (slept : W → ℕ) (c : SleepContract os slept) where
  start_attempts-Attempted :
      (fuel : ℕ) (s : NcSocket) (a : SockAddrIn) (w : W) (code : RetCode) (s' : NcSocket) (w' : W)
      → s.timeout < word_mod
      → start_attempts os fuel s a w ≡ some (code, s', w')
      → (s' ≡ record s { ipaddr = a.sin_addr })
        × Attempted os slept s.sockfd a s.timeout (slept w) code w'
  unfolding start_attempts
  start_attempts-Attempted fuel s a w code s' w' small e =
      elim (Option-cases (attempts os fuel s.sockfd s.timeout a 0 (nonblocking os s.sockfd w))) [
        | inl out ↦ absurd (ground arith)
        | inr ((d, u), ran) ↦
            let same : w' ≡ u = ground arith in
            let agreed : code ≡ d = ground arith in
            let result =
              attempts-Attempted os slept s.sockfd a s.timeout (slept w) c small fuel 0
                (nonblocking os s.sockfd w) d u (omega arith)
                (omega (arith, nonblocking-slept os slept s.sockfd w c)) ran in
            (ground arith, rw (same, agreed) result)
      ]

  connect-failed :
      (s s' : NcSocket) (w w' : W)
      → SameTarget s s'
      → s'.sockfd ≡ (opened os s w).0
      → s'.ipaddr ≡ s.ipaddr
      → slept w' ≡ slept w
      → Connected os slept s w RetCode.failed s' w'
  connect-failed s s' w w' members fd addr time = record {
    members = members;
    descriptor = fd;
    ending = inl (refl, addr, time);
  }

  -- The rest of connect, once the address is known.
  connect-resolved :
      (fuel : ℕ) (s s₂ : NcSocket) (a : SockAddrIn) (w w₂ : W) (code : RetCode) (s' : NcSocket)
      (w' : W)
      → s.timeout < word_mod
      → SameTarget s s₂
      → s₂.sockfd ≡ (opened os s w).0
      → a.sin_family ≡ os.arch.af_inet
      → a.sin_port ≡ os.htons s.port
      → slept w₂ ≡ slept w
      → start_attempts os fuel s₂ a w₂ ≡ some (code, s', w')
      → Connected os slept s w code s' w'
  connect-resolved fuel s s₂ a w w₂ code s' w' small same fd family to_port time e =
      let r =
        start_attempts-Attempted fuel s₂ a w₂ code s' w' (omega (arith, same.same_timeout)) e in
      let out : Attempted os slept (opened os s w).0 a s.timeout (slept w) code w' =
        rw (← fd, ← same.same_timeout, ← time) r.1 in
      record {
        members = rw r.0 (ground arith);
        descriptor = rw r.0 fd;
        ending =
            inr (a, rw r.0 (record { family = family; to_port = to_port; stashed = refl }), out);
      }

  answer-slept :
      (stack : SockAddrIn) (s : NcSocket) (w : W) → slept (answer os stack s w).world ≡ slept w
  answer-slept stack s w =
      let s₁ = fresh os stack s w in
      resolve-slept os s₁ (address_head os s₁ stack) (opened os s w).1 slept c
      ∙ c.socket_keeps _ _ _ w

  -- A failure before ::connect, from the equation of its path.
  early-Connected :
      (s s₀ s' : NcSocket) (w w₀ w' : W) (code : RetCode)
      → Connected os slept s w RetCode.failed s₀ w₀
      → ◌≡◌ {A = Option (RetCode × NcSocket × W)}
          (some (RetCode.failed, s₀, w₀))
          (some (code, s', w'))
      → Connected os slept s w code s' w'
  early-Connected s s₀ s' w w₀ w' code k e =
      let same_code : code ≡ RetCode.failed = ground arith in
      let same_sock : s' ≡ s₀ = ground arith in
      let same_world : w' ≡ w₀ = ground arith in rw (same_code, same_sock, same_world) k

  -- What a call of connect does, on every path that it can return by, for a timeout that fits its
  -- word: it keeps the members that name the peer and the timeouts, and holds the new descriptor; it
  -- fails before it connects, having slept not at all, with the old address stashed; or it has called
  -- ::connect with the address that it stashed: NC_OK after a call that succeeded or found the socket
  -- connected, NC_TIMEDOUT after one that would block and less than 100 ms below the timeout,
  -- NC_FAILED after one that failed otherwise; and it never sleeps longer than the timeout.
  pub connect-Connected :
      (fuel : ℕ) (stack : SockAddrIn) (s : NcSocket) (w : W) (code : RetCode) (s' : NcSocket)
      (w' : W)
      → s.timeout < word_mod
      → connect os fuel stack s w ≡ some (code, s', w')
      → Connected os slept s w code s' w'
  connect-Connected fuel stack s w code s' w' small e =
      let kept = aimed-kept os stack s w in
      let head = answer-head os stack s w in
      let same = aimed-SameTarget os stack s w in
      elim (Bool-cases (eqb_ℤ (opened os s w).0 (pos 0))) [
        | inl zero_fd ↦
            early-Connected s _ s' w _ w' code
              (connect-failed s (fresh os stack s w) w _ (ground arith) refl refl
                (c.socket_keeps _ _ _ w))
              (sym (connect-zero os stack s w fuel zero_fd) ∙ e)
        | inr good_fd ↦ elim (Bool-cases (answer os stack s w).found) [
          | inl found ↦
              connect-resolved fuel s _ _ w _ code s' w' small same kept.0 head.0 head.1
                (answer-slept stack s w) (sym (connect-found os stack s w fuel good_fd found) ∙ e)
          | inr lost ↦
              early-Connected s _ s' w _ w' code
                (connect-failed s _ w _ same kept.0 kept.1 (answer-slept stack s w))
                (sym (connect-lost os stack s w fuel good_fd lost) ∙ e)
        ]
      ]
