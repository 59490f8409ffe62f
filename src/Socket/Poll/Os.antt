-- ===== src/Socket/Poll/Os.antt =====
-- The system calls of the poll build of `ncSocket::writeData` and `ncSocket::readData`, as an
-- interface over the state W of the system: each call gives its result and the next state.
use netclass.Common.{ℕ, ℤ, List}
use netclass.Arch.Defs.{Arch}
use netclass.Socket.State.{SockAddrIn}

module _ (W : Type 0) where
  -- What poll on one descriptor returns, and the revents that it stores.
  pub record Polled : Type 0 where
    pub result : ℤ
    pub revents : ℕ
    pub world : W

  pub record Sent : Type 0 where
    pub result : ℤ
    pub world : W

  -- The bytes stand at the start of the buffer that the call was given; `from` is the sender's
  -- address as recvfrom stores it.
  pub record Received : Type 0 where
    pub result : ℤ
    pub bytes : List ℕ
    pub from : SockAddrIn
    pub world : W

module _ (W : Type 0) where
  pub record PollOs : Type 0 where
    pub arch : Arch
    pub pollin : ℕ
    pub pollout : ℕ
    pub pollerr : ℕ
    pub poll : (fd : ℤ) (events : ℕ) (millisecs : ℤ) → W → Polled W
    pub send : (fd : ℤ) (bytes : List ℕ) (flags : ℕ) → W → Sent W
    pub sendto : (fd : ℤ) (bytes : List ℕ) (flags : ℕ) → SockAddrIn → W → Sent W
    pub recv : (fd : ℤ) (len flags : ℕ) → W → Received W
    pub recvfrom : (fd : ℤ) (len flags : ℕ) → SockAddrIn → W → Received W
    pub shutdown : (fd : ℤ) (how : ℕ) → W → W
    pub last_error : W → ℕ
