-- ===== src/Socket/Poll/Contracts.antt =====
-- What poll, send, recv and shutdown are documented to do, as laws over an observation of the
-- system: the bytes that have left on the wire, and the bytes that have been handed to the program.
use netclass.Common.{ℕ, ℤ, pos, negsuc, minus_one, ◌≤◌, ◌≡◌, ◌⊎◌, List, [], ◌++◌, length, take}
use netclass.Socket.State.{SockAddrIn}
use netclass.Socket.Poll.Os.{PollOs, Sent, Received}

module _ {W : Type 0} where
  -- A call that was given `bytes`: a count of those that it took, from the first on, or an error.
  pub record SendsPrefix (wire : W → List ℕ) (bytes : List ℕ) (w : W) (r : Sent W) : Type 0 where
    pub count_le : (k : ℕ) → r.result ≡ pos k → k ≤ length bytes
    pub takes : (k : ℕ) → r.result ≡ pos k → wire r.world ≡ wire w ++ take k bytes
    pub refuses : (e : ℕ) → r.result ≡ negsuc e → wire r.world ≡ wire w

  -- A call for at most `len` bytes: a count and that many bytes, or an error and none.
  pub record Delivers (handed : W → List ℕ) (len : ℕ) (w : W) (r : Received W) : Type 0 where
    pub count_le : (k : ℕ) → r.result ≡ pos k → k ≤ len
    pub stores : (k : ℕ) → r.result ≡ pos k → length r.bytes ≡ k
    pub gives : (k : ℕ) → r.result ≡ pos k → handed r.world ≡ handed w ++ r.bytes
    pub refuses : (e : ℕ) → r.result ≡ negsuc e → (r.bytes ≡ []) × (handed r.world ≡ handed w)

  -- poll on one descriptor.
  pub record PollContract (os : PollOs W) (seen : W → List ℕ) : Type 0 where
    pub range :
        (fd : ℤ) (events : ℕ) (millisecs : ℤ) (w : W)
        → let r = (os.poll fd events millisecs w).result in
          (r ≡ minus_one) ⊎ (r ≡ pos 0) ⊎ (r ≡ pos 1)
    pub poll_keeps :
        (fd : ℤ) (events : ℕ) (millisecs : ℤ) (w : W)
        → seen (os.poll fd events millisecs w).world ≡ seen w
    pub shutdown_keeps : (fd : ℤ) (how : ℕ) (w : W) → seen (os.shutdown fd how w) ≡ seen w

  pub record SendContract (os : PollOs W) (wire : W → List ℕ) : Type 0 where
    pub poll : PollContract os wire
    pub send :
        (fd : ℤ) (bytes : List ℕ) (flags : ℕ) (w : W)
        → SendsPrefix wire bytes w (os.send fd bytes flags w)
    pub sendto :
        (fd : ℤ) (bytes : List ℕ) (flags : ℕ) (to : SockAddrIn) (w : W)
        → SendsPrefix wire bytes w (os.sendto fd bytes flags to w)

  pub record RecvContract (os : PollOs W) (handed : W → List ℕ) : Type 0 where
    pub poll : PollContract os handed
    pub recv : (fd : ℤ) (len flags : ℕ) (w : W) → Delivers handed len w (os.recv fd len flags w)
    pub recvfrom :
        (fd : ℤ) (len flags : ℕ) (to : SockAddrIn) (w : W)
        → Delivers handed len w (os.recvfrom fd len flags to w)
