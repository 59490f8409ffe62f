-- ===== src/Socket/Builds/System.antt =====
-- A system that both builds of the socket run on: poll and select give the same answers, and a call on
-- a descriptor that is ready moves bytes or fails.
use netclass.Common.{
  ℕ, suc, ℤ, pos, minus_one, ◌+ℤ◌, ◌≤◌, ◌<◌, ◌≡◌, ◌⊎◌, true, false, List, [], ◌∷◌, Option, some,
  none, length, has_bit,
}
use netclass.Socket.State.{SockAddrIn}
use netclass.Socket.Poll.Os.{PollOs, Received, Polled}
use netclass.Socket.Select.Os.{SelectOs, Selected}
use netclass.Socket.Select.Loop.{is_set}

module _ (W : Type 0) where
  -- select, with its sets of descriptors to read from and to write to.
  abbrev pub Select : Type 0
  Select = (nfds : ℤ) (reads writes : Option (List ℤ)) (sec usec : ℕ) → W → Selected W

module _ {W : Type 0} (p : PollOs W) (select : Select W) where
  -- The system as the select build calls it.
  abbrev pub with_select : SelectOs W
  with_select = record {
    arch = p.arch;
    select = select;
    send = p.send;
    sendto = p.sendto;
    recv = p.recv;
    recvfrom = p.recvfrom;
    shutdown = p.shutdown;
    last_error = p.last_error;
  }

module _ {W : Type 0} (p : PollOs W) where
  -- The answers of poll and select on one descriptor: an error, nothing yet, or the event and no POLLERR.
  pub data SameAnswer (event : ℕ) (fd : ℤ) : Polled W → Selected W → Type 0 where
    both_fail :
        (revents : ℕ) (set : List ℤ) (w : W)
        → SameAnswer event fd
            (record { result = minus_one; revents = revents; world = w })
            (record { result = minus_one; set = set; world = w })
    both_wait :
        (revents : ℕ) (set : List ℤ) (w : W)
        → SameAnswer event fd
            (record { result = pos 0; revents = revents; world = w })
            (record { result = pos 0; set = set; world = w })
    both_ready :
        (revents : ℕ) (set : List ℤ) (w : W)
        → has_bit revents p.pollerr ≡ false
        → has_bit revents event ≡ true
        → is_set fd set ≡ true
        → SameAnswer event fd
            (record { result = pos 1; revents = revents; world = w })
            (record { result = pos 1; set = set; world = w })

  -- The system as a poll for the event has left it, when it has found the descriptor ready.
  pub record IsReady (event : ℕ) (fd : ℤ) (w : W) : Type 0 where
    pub ms : ℤ
    pub before : W
    pub found : (p.poll fd event ms before).result ≡ pos 1
    pub after : w ≡ (p.poll fd event ms before).world

  -- A result for `n` bytes: at least one of them, or -1 with an error that does not block.
  abbrev pub MovesOrFails : ℕ → ℤ → W → Type 0
  MovesOrFails n result w =
      ((k : ℕ) × (result ≡ pos (suc k)) × (suc k ≤ n))
      ⊎ ((result ≡ minus_one) × (p.arch.is_blocking_error (p.last_error w) ≡ false))

  -- The same, and no more bytes are stored than were asked for.
  pub record Fills (n : ℕ) (r : Received W) : Type 0 where
    pub moves : MovesOrFails n r.result r.world
    pub stores : length r.bytes ≤ n

  module _ (select : Select W) where
    pub record SameWrites : Type 0 where
      pub answers :
          (fd ms : ℤ) (sec usec : ℕ) (w : W)
          → SameAnswer p.pollout fd
              (p.poll fd p.pollout ms w)
              (select (fd +ℤ pos 1) none (some (fd ∷ [])) sec usec w)
      pub sends :
          (fd : ℤ) (bytes : List ℕ) (flags : ℕ) (w : W)
          → IsReady p.pollout fd w
          → 0 < length bytes
          → let r = p.send fd bytes flags w in MovesOrFails (length bytes) r.result r.world
      pub sends_to :
          (fd : ℤ) (bytes : List ℕ) (flags : ℕ) (to : SockAddrIn) (w : W)
          → IsReady p.pollout fd w
          → 0 < length bytes
          → let r = p.sendto fd bytes flags to w in MovesOrFails (length bytes) r.result r.world

    pub record SameReads : Type 0 where
      pub answers :
          (fd ms : ℤ) (sec usec : ℕ) (w : W)
          → SameAnswer p.pollin fd
              (p.poll fd p.pollin ms w)
              (select (fd +ℤ pos 1) (some (fd ∷ [])) none sec usec w)
      pub receives :
          (fd : ℤ) (len flags : ℕ) (w : W)
          → IsReady p.pollin fd w
          → 0 < len
          → Fills len (p.recv fd len flags w)
      pub receives_from :
          (fd : ℤ) (len flags : ℕ) (to : SockAddrIn) (w : W)
          → IsReady p.pollin fd w
          → 0 < len
          → Fills len (p.recvfrom fd len flags to w)
