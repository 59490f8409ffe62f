-- ===== src/Socket/Builds/Differ.antt =====
-- src/ncsocket.cpp: where the two builds of `ncSocket::readData` differ.
use netclass.Common.{
  ℕ, ℤ, pos, minus_one, ◌+ℤ◌, ◌≡◌, ◌⊎◌, true, false, [], ◌∷◌, Option, some, none, has_bit,
}
use netclass.Consts.{RetCode}
use netclass.Socket.State.{NcSocket, SockAddrIn, fd_set}
use netclass.Socket.Poll.Os.{PollOs, Received}
use netclass.Socket.Poll.Calls as PollCalls
use netclass.Socket.Poll.Calls.{begin, cleared}
use netclass.Socket.Poll.Still.{Still}
use netclass.Socket.Select.Memory.{Memory}
use netclass.Socket.Select.Loop.{Locals, is_set, asked}
use netclass.Socket.Select.Calls as SelectCalls
use netclass.Socket.Builds.System.{Select, with_select}

module _ {W : Type 0} (p : PollOs W) where
  -- The result of a receive that gives no byte, though the descriptor is ready: 0 and no error that
  -- blocks, as after the peer's orderly close, or an error that asks to try again.
  abbrev pub NothingCame : Received W → Type 0
  NothingCame r =
      let err = p.last_error r.world in
      ((r.result ≡ pos 0) × (p.arch.is_blocking_error err ≡ false))
      ⊎ ((r.result ≡ minus_one)
          × (p.arch.is_blocking_error err ≡ true)
          × (p.arch.socket_reset err ≡ false))

  module _ (select : Select W) where
    -- poll and select always find the descriptor ready to read, and no receive gives a byte.
    pub record IsFruitless : Type 0 where
      pub poll_one : (fd ms : ℤ) (w : W) → (p.poll fd p.pollin ms w).result ≡ pos 1
      pub fine : (fd ms : ℤ) (w : W) → has_bit (p.poll fd p.pollin ms w).revents p.pollerr ≡ false
      pub event : (fd ms : ℤ) (w : W) → has_bit (p.poll fd p.pollin ms w).revents p.pollin ≡ true
      pub select_one :
          (fd : ℤ) (sec usec : ℕ) (w : W)
          → (select (fd +ℤ pos 1) (some (fd ∷ [])) none sec usec w).result ≡ pos 1
      pub is_in :
          (fd : ℤ) (sec usec : ℕ) (w : W)
          → is_set fd (select (fd +ℤ pos 1) (some (fd ∷ [])) none sec usec w).set ≡ true
      pub recv : (fd : ℤ) (len flags : ℕ) (w : W) → NothingCame (p.recv fd len flags w)
      pub recvfrom :
          (fd : ℤ) (len flags : ℕ) (to : SockAddrIn) (w : W)
          → NothingCame (p.recvfrom fd len flags to w)

    module _ (n : ℤ) (t : Locals W) where
      -- The locals when select has answered, and when the receive has.
      abbrev chosen : Locals W
      chosen =
          let a = asked (with_select p select) (SelectCalls.reading (with_select p select)) n t in
          record t { sock = record t.sock { listener = fd_set a.set }; world = a.world }

      abbrev called : Locals W
      called =
          let c = (SelectCalls.reading (with_select p select)).carry chosen in
          record chosen {
            memory = c.memory;
            sock = record chosen.sock { to = c.to };
            world = c.world;
          }

    -- The select build has failed with no byte, and has shut the reading side down.
    abbrev pub FailsAtOnce : NcSocket → Option ℤ → Option (RetCode × Locals W) → Type 0
    FailsAtOnce s num r =
        (u : Locals W) × (w : W) × (r ≡ some (RetCode.failed, u))
        × (u.off ≡ pos 0)
        × (u.num_actual ≡ cleared p num)
        × (u.world ≡ p.shutdown s.sockfd p.arch.sd_read w)
