-- ===== src/Socket/Poll/Read.antt =====
-- src/ncsocket.cpp: what a call of `ncSocket::readData` in the poll build does.
use netclass.Common.{
  ℕ, ℤ, word_mod, ◌+◌, ◌≤◌, ◌<◌, ◌≡◌, refl, sym, append-nil, List, Option, some, arith,
}
use netclass.Consts.{RetCode}
use netclass.Socket.State.{NcSocket}
use netclass.Socket.Poll.Os.{PollOs}
use netclass.Socket.Poll.Loop.{Transfer}
use netclass.Socket.Poll.Calls.{begin, reading, read_data}
use netclass.Socket.Poll.Outcome.{Laws, Outcome}
use netclass.Socket.Poll.Contracts.{RecvContract}
use netclass.Socket.Poll.Progress.{Stored, reading-Laws}
use netclass.Socket.Poll.Runs.{rounds, transfer-Outcome, begin-Inside, begin-Returns}

module _ {W : Type 0} (os : PollOs W) (handed : W → List ℕ) (c : RecvContract os handed) where
  module _ (s : NcSocket) (buf : List ℕ) (buf_len : ℤ) (num : Option ℤ) (w : W) where
    start : Stored handed (handed w) buf 0 buf w
    start = record { received = sym (append-nil _); rest = refl; inside = omega arith }

    -- Whenever readData returns, whatever the timeouts and the errors on the way: the first `off` bytes
    -- of the buffer are those that the system has handed over since the call, in order, no more than
    -- were asked for, and the buffer behind them is as it was; *numActualBytes, if given, is that
    -- number; NC_OK means that all were read, NC_MOREDATA that the count was asked for and is strictly
    -- between, NC_TIMEDOUT with a count that nothing was read; NC_CLIENTDISCONNECT and NC_FAILED come
    -- only of the causes that `Cause` names.
    pub read_data-Outcome :
        (fuel : ℕ) (code : RetCode) (t : Transfer W)
        → read_data os fuel s buf buf_len num w ≡ some (code, t)
        → Outcome os (reading os) (Stored handed (handed w) buf) buf_len num code t
    unfolding read_data
    read_data-Outcome fuel code t e =
        transfer-Outcome os (reading os) _ laws buf_len num s.timeout s.polltime fuel
          (begin os s buf buf_len num w) code t
          (begin-Inside os (reading os) _ s buf num w buf_len start laws) e
      where
        laws : Laws os (reading os) (Stored handed (handed w) buf)
        laws = reading-Laws handed (handed w) buf os c

    -- With a positive polling time and a timeout that does not wrap, readData returns within
    -- timeout / polltime + 3 tests of its loop, whatever the system answers.
    pub read_data-Returns :
        (fuel : ℕ)
        → 0 < s.polltime
        → s.timeout + s.polltime < word_mod
        → rounds s ≤ fuel
        → (code : RetCode) × (t : Transfer W) × (read_data os fuel s buf buf_len num w
            ≡ some (code, t))
    unfolding read_data
    read_data-Returns fuel ticks room enough =
        begin-Returns os (reading os) _ s buf num w (reading-Laws handed (handed w) buf os c)
          buf_len fuel start ticks room enough
