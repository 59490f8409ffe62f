-- ===== src/Socket/Select/Os.antt =====
-- The system calls of the select build of `ncSocket::writeData` and `ncSocket::readData`.
use netclass.Common.{ℕ, ℤ, List, Option}
use netclass.Arch.Defs.{Arch}
use netclass.Socket.State.{SockAddrIn}
use netclass.Socket.Poll.Os.{Sent, Received}

module _ (W : Type 0) where
  -- What select returns, and what it leaves of the one set that it was given.
  pub record Selected : Type 0 where
    pub result : ℤ
    pub set : List ℤ
    pub world : W

module _ (W : Type 0) where
  -- A null set is `none`; the third set is always null. The time is in seconds and microseconds.
  pub record SelectOs : Type 0 where
    pub arch : Arch
    pub select : (nfds : ℤ) (reads writes : Option (List ℤ)) (sec usec : ℕ) → W → Selected W
    pub send : (fd : ℤ) (bytes : List ℕ) (flags : ℕ) → W → Sent W
    pub sendto : (fd : ℤ) (bytes : List ℕ) (flags : ℕ) → SockAddrIn → W → Sent W
    pub recv : (fd : ℤ) (len flags : ℕ) → W → Received W
    pub recvfrom : (fd : ℤ) (len flags : ℕ) → SockAddrIn → W → Received W
    pub shutdown : (fd : ℤ) (how : ℕ) → W → W
    pub last_error : W → ℕ
