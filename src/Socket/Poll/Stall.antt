-- ===== src/Socket/Poll/Stall.antt =====
-- src/ncsocket.cpp: calls of the poll build in which nothing ever moves.
use netclass.Common.{
  ℕ, suc, ℤ, pos, word_mod, ◌+◌, ◌*◌, ◌/◌, ◌∙◌, ◌≤◌, ◌<◌, ◌≡◌, refl, true, false, List, Option,
  none, some, arith, has_bit, int_of_uint, eqb_ℤ, Bool-cases, inl, inr,
}
use netclass.Consts.{RetCode, socktype_tcpip}
use netclass.Socket.State.{NcSocket, SockAddrIn}
use netclass.Socket.Poll.Os.{PollOs}
use netclass.Socket.Poll.Loop.{Transfer, Direction, transfer, round, with_polled, on_poll}
use netclass.Socket.Poll.Calls.{begin, cleared, writing, write_data, reading, read_data, recv_call}
use netclass.Socket.Poll.Runs.{rounds, div-reach}
use netclass.Socket.Poll.Waiting.{Still-same, answered, empty-Waits}
use netclass.Socket.Poll.Still.{Still, Waits, plain-Waits, transfer-TimedOut, transfer-hangs}

module _ {W : Type 0} (os : PollOs W) where
  -- poll never finds the descriptor ready.
  pub record IsIdle : Type 0 where
    pub never :
        (fd : ℤ) (events : ℕ) (millisecs : ℤ) (w : W)
        → (os.poll fd events millisecs w).result ≡ pos 0

  -- The peer has closed in good order: the descriptor is always ready to read, and recv returns 0.
  pub record IsEof : Type 0 where
    pub ready : (fd : ℤ) (millisecs : ℤ) (w : W) → (os.poll fd os.pollin millisecs w).result ≡ pos 1
    pub no_error :
        (fd : ℤ) (millisecs : ℤ) (w : W)
        → has_bit (os.poll fd os.pollin millisecs w).revents os.pollerr ≡ false
    pub event :
        (fd : ℤ) (millisecs : ℤ) (w : W)
        → has_bit (os.poll fd os.pollin millisecs w).revents os.pollin ≡ true
    pub recv_empty : (fd : ℤ) (len flags : ℕ) (w : W) → (os.recv fd len flags w).result ≡ pos 0
    pub recvfrom_empty :
        (fd : ℤ) (len flags : ℕ) (to : SockAddrIn) (w : W)
        → (os.recvfrom fd len flags to w).result ≡ pos 0

  recv_call-empty : IsEof → (t : Transfer W) → (recv_call os t).result ≡ pos 0
  unfolding recv_call
  recv_call-empty eof t = elim (Bool-cases (eqb_ℤ t.sock.socktype socktype_tcpip)) [
    | inl tcp ↦ rw tcp (eof.recv_empty _ _ _ _)
    | inr udp ↦ rw udp (eof.recvfrom_empty _ _ _ _ _)
  ]

  module _ (num : Option ℤ) (limit poll n : ℕ) where
    idle-Waits :
        (dir : Direction W)
        → IsIdle
        → (t : Transfer W) → Still os dir (pos (suc n)) num limit poll n t
        → Waits os dir (pos (suc n)) num limit poll n t
    unfolding round
    idle-Waits dir idle t s =
        let p = os.poll t.sock.sockfd dir.event (int_of_uint t.sock.polltime) t.world in
        plain-Waits os dir _ num limit poll n t (with_polled dir.event p t)
          (rw (idle.never t.sock.sockfd dir.event (int_of_uint t.sock.polltime) t.world, on_poll)
            refl)
          (Still-same os num limit poll n dir t _ s refl refl refl refl refl refl) refl

    eof-Waits :
        IsEof
        → (t : Transfer W) → Still os (reading os) (pos (suc n)) num limit poll n t
        → Waits os (reading os) (pos (suc n)) num limit poll n t
    eof-Waits eof t s =
        empty-Waits os num limit poll n t
          (record {
            one = eof.ready t.sock.sockfd (int_of_uint t.sock.polltime) t.world;
            fine = eof.no_error t.sock.sockfd (int_of_uint t.sock.polltime) t.world;
            event = eof.event t.sock.sockfd (int_of_uint t.sock.polltime) t.world;
          })
          (recv_call-empty eof (answered os t)) s

  module _ (s : NcSocket) (buf : List ℕ) (n : ℕ) (num : Option ℤ) (w : W) where
    begin-Still :
        (dir : Direction W)
        → Still os dir (pos (suc n)) num s.timeout s.polltime n (begin os s buf (pos (suc n)) num w)
    begin-Still dir = ground arith

    -- The call returns NC_TIMEDOUT, and reports no byte.
    abbrev pub TimesOut : Option (RetCode × Transfer W) → Type 0
    TimesOut r =
        (t : Transfer W) × (r ≡ some (RetCode.timedout, t))
        × (t.off ≡ 0)
        × (t.num_actual ≡ cleared os num)

    pub Still-TimesOut :
        (dir : Direction W)
        → ((t : Transfer W)
            → Still os dir (pos (suc n)) num s.timeout s.polltime n t
            → Waits os dir (pos (suc n)) num s.timeout s.polltime n t)
        → (fuel : ℕ) → 0 < s.polltime
        → s.timeout + s.polltime < word_mod
        → rounds s ≤ fuel
        → TimesOut (transfer os dir (pos (suc n)) fuel (begin os s buf (pos (suc n)) num w))
    Still-TimesOut dir waits fuel ticks room enough =
        let (t, e, d) =
          transfer-TimedOut os dir (pos (suc n)) num s.timeout s.polltime n waits fuel
            (s.timeout / s.polltime + 1) (begin os s buf (pos (suc n)) num w) (omega arith) room
            (div-reach _ _ ticks) (omega arith) (begin-Still dir) in
        (t, e, d.unmoved, ground (arith, d.counted))

    -- On a line that is never ready a call for at least one byte ends with NC_TIMEDOUT, in both
    -- directions, once timeout / polltime + 3 tests of the loop are given.
    pub idle-TimesOut :
        (fuel : ℕ)
        → IsIdle
        → 0 < s.polltime
        → s.timeout + s.polltime < word_mod
        → rounds s ≤ fuel
        → TimesOut (write_data os fuel s buf (pos (suc n)) num w)
          × TimesOut (read_data os fuel s buf (pos (suc n)) num w)
    unfolding write_data read_data
    idle-TimesOut fuel idle ticks room enough = (
      Still-TimesOut (writing os) (idle-Waits num _ _ n (writing os) idle) fuel ticks room enough,
      Still-TimesOut (reading os) (idle-Waits num _ _ n (reading os) idle) fuel ticks room enough,
    )

    -- When the peer has closed in good order, so that poll finds the descriptor readable at once and
    -- recv returns 0, readData goes round without waiting until its count of rounds is used up, and
    -- then reports NC_TIMEDOUT and no byte.
    pub eof-TimesOut :
        (fuel : ℕ)
        → IsEof
        → 0 < s.polltime
        → s.timeout + s.polltime < word_mod
        → rounds s ≤ fuel
        → TimesOut (read_data os fuel s buf (pos (suc n)) num w)
    unfolding read_data
    eof-TimesOut fuel eof ticks room enough =
        Still-TimesOut (reading os) (eof-Waits num _ _ n eof) fuel ticks room enough

    -- Where the polling time and 2 ^ 32 are multiples of some unit, and the timeout is less than that
    -- unit below 2 ^ 32, the clock of the call wraps without reaching it: neither call ever returns on a
    -- line that is never ready, no number of rounds is enough.
    pub aligned_clock_hangs :
        (fuel unit steps size : ℕ)
        → IsIdle
        → s.polltime ≡ steps * unit
        → word_mod ≡ size * unit
        → word_mod < s.timeout + unit
        → (write_data os fuel s buf (pos (suc n)) num w ≡ none)
          × (read_data os fuel s buf (pos (suc n)) num w ≡ none)
    unfolding write_data read_data
    aligned_clock_hangs fuel unit steps size idle p m above = (
      transfer-hangs os (writing os) _ num _ _ n (idle-Waits num _ _ n (writing os) idle) unit steps
          size p m above fuel 0 _ (omega arith) (begin-Still (writing os)),
      transfer-hangs os (reading os) _ num _ _ n (idle-Waits num _ _ n (reading os) idle) unit steps
          size p m above fuel 0 _ (omega arith) (begin-Still (reading os)),
    )

    -- So with a polling time of 0 and a positive timeout.
    pub zero_polltime_hangs :
        (fuel : ℕ)
        → IsIdle
        → s.polltime ≡ 0
        → 0 < s.timeout
        → (write_data os fuel s buf (pos (suc n)) num w ≡ none)
          × (read_data os fuel s buf (pos (suc n)) num w ≡ none)
    zero_polltime_hangs fuel idle zero_poll limited =
        aligned_clock_hangs fuel word_mod 0 1 idle (zero_poll ∙ omega arith) (omega arith)
          (omega arith)
