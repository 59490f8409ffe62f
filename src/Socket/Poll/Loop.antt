-- ===== src/Socket/Poll/Loop.antt =====
-- src/ncsocket.cpp, the poll build: the loop that `writeData` and `readData` share, with the
-- direction (the event waited for, the transferring call, the side shut down) as an argument.
use netclass.Common.{
  ℕ, zero, suc, ℤ, pos, negsuc, minus_one, ◌+◌, ◌+ℤ◌, ◌-ℤ◌, ltb_ℤ, eqb_ℤ, ◌==◌, if◌then◌else◌, Bool,
  true, false, not, ◌&&◌, List, Option, none, some, has_bit, int_of_uint,
}
use netclass.Consts.{RetCode}
use netclass.Socket.State.{NcSocket, pollfd, SockAddrIn}
use netclass.Socket.Timeout.{check_timeout}
use netclass.Socket.Poll.Os.{PollOs, Polled}

module _ (W : Type 0) where
  -- The locals of the function, the buffer, *numActualBytes (`none` if the pointer is null), the
  -- object and the system. The pointer pPtr is `off` bytes into the buffer.
  pub record Transfer : Type 0 where
    pub buf : List ℕ
    pub off : ℕ
    pub remaining : ℤ
    pub num_actual : Option ℤ
    pub clock : ℕ
    pub timedout : ℕ
    pub code : RetCode
    pub sock : NcSocket
    pub world : W

  -- The result of the transferring call, and what it leaves.
  pub record Moved : Type 0 where
    pub count : ℤ
    pub buf : List ℕ
    pub to : SockAddrIn
    pub world : W

module _ (W : Type 0) where
  -- A round ends with a return, or goes on to the test of the loop.
  pub data Round : Type 0 where
    return : RetCode → Transfer W → Round
    next : Transfer W → Round

  pub record Direction : Type 0 where
    pub event : ℕ
    pub how : ℕ
    pub move : Transfer W → Moved W

-- haveAllData, from -1: it is set once *numActualBytes is positive.
unfoldable pub have_all_data : ℤ → Option ℤ → ℤ
have_all_data buf_len none = minus_one
have_all_data buf_len (some n) =
    if ltb_ℤ (pos 0) n then (if eqb_ℤ n buf_len then pos 1 else pos 0) else minus_one

-- ret == NC_OK.
abbrev pub is_ok : RetCode → Bool
is_ok RetCode.ok = true
is_ok _ = false

-- *numActualBytes += n, if the pointer is not null.
abbrev pub add_actual : Option ℤ → ℤ → Option ℤ
add_actual none n = none
add_actual (some a) n = some (a +ℤ n)

module _ {W : Type 0} where
  -- ret = checkTimeout(&timeout,&timedout,haveAllData).
  unfoldable pub checked : ℤ → Transfer W → Transfer W
  unfolding check_timeout have_all_data
  checked buf_len t =
      let c = check_timeout t.sock t.clock t.timedout (have_all_data buf_len t.num_actual) in
      record t { code = c.code; clock = c.timeout; timedout = c.timedout }

  -- nRemaining = 0, and `ret`.
  abbrev pub give_up : RetCode → Transfer W → Transfer W
  give_up code t = record t { remaining = pos 0; code = code }

  -- The listener, set up for the event, as poll leaves it.
  abbrev pub with_polled : ℕ → Polled W → Transfer W → Transfer W
  with_polled event p t = record t {
    sock = record t.sock { listener = pollfd t.sock.sockfd event p.revents };
    world = p.world;
  }

  -- The buffer, m_to and the system after the transferring call.
  abbrev pub with_moved : Moved W → Transfer W → Transfer W
  with_moved m t = record t { buf = m.buf; sock = record t.sock { to = m.to }; world = m.world }

  -- nRemaining, pPtr and *numActualBytes after `n` bytes.
  abbrev pub advanced : ℕ → Transfer W → Transfer W
  advanced n t = record t {
    remaining = t.remaining -ℤ pos n;
    off = t.off + n;
    num_actual = add_actual t.num_actual (pos n);
  }

  module _ (os : PollOs W) (dir : Direction W) (buf_len : ℤ) where
    -- The branch of a negative result; `err` is ncGetLastError().
    unfoldable pub on_error : ℕ → Transfer W → Round W
    unfolding checked
    on_error err t =
        if os.arch.socket_reset err
        then next (record (give_up RetCode.clientdisconnect t) {
          world = os.shutdown t.sock.sockfd dir.how t.world;
        })
        else if os.arch.is_blocking_error err
        then (let t' = checked buf_len t in
            if is_ok t'.code then next t' else next (record t' { remaining = pos 0 }))
        else next (record (give_up RetCode.failed t) {
          world = os.shutdown t.sock.sockfd dir.how t.world;
        })

    unfoldable pub on_count : ℕ → Transfer W → Round W
    unfolding checked
    on_count n t = next (checked buf_len (advanced n t))

    unfoldable pub on_moved : ℤ → Transfer W → Round W
    unfolding on_error on_count
    on_moved (negsuc e) t = on_error (os.last_error t.world) t
    on_moved (pos n) t = on_count n t

    -- One descriptor is ready: `revents` decides.
    unfoldable pub on_ready : ℕ → Transfer W → Round W
    unfolding on_moved
    on_ready revents t =
        if has_bit revents os.pollerr
        then return RetCode.failed t
        else if not (has_bit revents dir.event)
        then return RetCode.failed t
        else (let m = dir.move t in on_moved m.count (with_moved m t))

    -- switch(pollRet).
    unfoldable pub on_poll : ℤ → ℕ → Transfer W → Round W
    unfolding on_ready checked
    on_poll (negsuc zero) revents t = return RetCode.failed t
    on_poll (pos zero) revents t = next (checked buf_len t)
    on_poll (pos (suc zero)) revents t = on_ready revents t
    on_poll (pos (suc (suc n))) revents t = next t
    on_poll (negsuc (suc n)) revents t = next t

    -- The body of the loop.
    unfoldable pub round : Transfer W → Round W
    unfolding on_poll int_of_uint
    round t =
        let p = os.poll t.sock.sockfd dir.event (int_of_uint t.sock.polltime) t.world in
        on_poll p.result p.revents (with_polled dir.event p t)

    -- (nRemaining > 0) && (!timedout).
    abbrev pub goes_on : Transfer W → Bool
    goes_on t = ltb_ℤ (pos 0) t.remaining && t.timedout == 0

    -- The loop on fuel: `none` means that the fuel ran out.
    unfoldable pub transfer : ℕ → Transfer W → Option (RetCode × Transfer W)
    unfolding round
    transfer zero t = none
    transfer (suc fuel) t = elim (goes_on t) [
      | true ↦ elim (round t) [ return code t' ↦ some (code, t') | next t' ↦ transfer fuel t' ]
      | false ↦ some (t.code, t)
    ]
