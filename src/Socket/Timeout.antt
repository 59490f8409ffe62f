-- ===== src/Socket/Timeout.antt =====
-- src/ncsocket.cpp: `ncSocket::checkTimeout`.
use netclass.Common.{ℕ, zero, suc, ℤ, pos, negsuc, ◌+◌, ◌%◌, leb, if◌then◌else◌, word_mod}
use netclass.Consts.{RetCode}
use netclass.Socket.State.{NcSocket}

-- The switch on haveAllData once the limit is reached; `ret` is ok before it.
unfoldable pub timeout_code : ℤ → RetCode
timeout_code (negsuc zero) = RetCode.timedout
timeout_code (pos zero) = RetCode.moredata
timeout_code (pos (suc zero)) = RetCode.ok
timeout_code _ = RetCode.ok

-- What checkTimeout returns, and what it leaves in *timeout and *timedout.
pub record Checked : Type 0 where
  pub code : RetCode
  pub timeout : ℕ
  pub timedout : ℕ

unfoldable pub check_timeout : NcSocket → ℕ → ℕ → ℤ → Checked
unfolding timeout_code
check_timeout s timeout timedout have_all_data =
    let total = (timeout + s.polltime) % word_mod in
    if leb s.timeout total
    then record { code = timeout_code have_all_data; timeout = total; timedout = 1 }
    else record { code = RetCode.ok; timeout = total; timedout = timedout }
