-- ===== src/Socket/Poll/Write.antt =====
-- src/ncsocket.cpp: what a call of `ncSocket::writeData` in the poll build does.
use netclass.Common.{ℕ, ℤ, word_mod, ◌+◌, ◌≤◌, ◌<◌, ◌≡◌, refl, sym, append-nil, List, Option, some}
use netclass.Consts.{RetCode}
use netclass.Socket.State.{NcSocket}
use netclass.Socket.Poll.Os.{PollOs}
use netclass.Socket.Poll.Loop.{Transfer}
use netclass.Socket.Poll.Calls.{begin, writing, write_data}
use netclass.Socket.Poll.Outcome.{Laws, Outcome}
use netclass.Socket.Poll.Contracts.{SendContract}
use netclass.Socket.Poll.Progress.{Written, writing-Laws}
use netclass.Socket.Poll.Runs.{rounds, transfer-Outcome, begin-Inside, begin-Returns}

module _ {W : Type 0} (os : PollOs W) (wire : W → List ℕ) (c : SendContract os wire) where
  module _ (s : NcSocket) (buf : List ℕ) (buf_len : ℤ) (num : Option ℤ) (w : W) where
    start : Written wire (wire w) buf 0 buf w
    start = record { on_wire = sym (append-nil _); same_buf = refl }

    -- Whenever writeData returns, whatever the timeouts and the errors on the way: the bytes that have
    -- left are the first `off` of the buffer, in order and once each, and no more than were asked for;
    -- *numActualBytes, if given, is that number; NC_OK means that all were sent, NC_MOREDATA that the
    -- count was asked for and is strictly between, NC_TIMEDOUT with a count that nothing was sent;
    -- NC_CLIENTDISCONNECT and NC_FAILED come only of the causes that `Cause` names.
    pub write_data-Outcome :
        (fuel : ℕ) (code : RetCode) (t : Transfer W)
        → write_data os fuel s buf buf_len num w ≡ some (code, t)
        → Outcome os (writing os) (Written wire (wire w) buf) buf_len num code t
    unfolding write_data
    write_data-Outcome fuel code t e =
        transfer-Outcome os (writing os) _ laws buf_len num s.timeout s.polltime fuel
          (begin os s buf buf_len num w) code t
          (begin-Inside os (writing os) _ s buf num w buf_len start laws) e
      where
        laws : Laws os (writing os) (Written wire (wire w) buf)
        laws = writing-Laws wire (wire w) buf os c

    -- With a positive polling time and a timeout that does not wrap, writeData returns within
    -- timeout / polltime + 3 tests of its loop, whatever the system answers.
    pub write_data-Returns :
        (fuel : ℕ)
        → 0 < s.polltime
        → s.timeout + s.polltime < word_mod
        → rounds s ≤ fuel
        → (code : RetCode) × (t : Transfer W) × (write_data os fuel s buf buf_len num w
            ≡ some (code, t))
    unfolding write_data
    write_data-Returns fuel ticks room enough =
        begin-Returns os (writing os) _ s buf num w (writing-Laws wire (wire w) buf os c) buf_len
          fuel start ticks room enough
