-- ===== src/Listener/Causes.antt =====
-- src/ncsocklist.cpp: the calls whose failure makes `startListening` return NC_FAILED.
use netclass.Common.{ℕ, ℤ, pos, minus_one, ◌≡◌, eqb_ℤ, true, false, Bool, arith, if◌then◌else◌}
use netclass.Socket.State.{SockAddrIn}
use netclass.Listener.Defs.{ListenOs}
use netclass.Listener.Binding.{Reason}
use netclass.Listener.Failing.{ThreadError}

module _ {W : Type 0} (os : ListenOs W) (fn : ℕ) (option flags : ℤ) where
  -- startListening takes the descriptor 0 for a failure of socket, and does not see that socket fails by
  -- giving -1, as the other calls do.
  pub data Cause : Type 0 where
    socket_zero : (d t : ℕ) (w : W) → eqb_ℤ (os.socket d t 0 w).0 (pos 0) ≡ true → Cause
    not_reused : (fd : ℤ) (w : W) → eqb_ℤ (os.reuse_addr fd w).0 minus_one ≡ true → Cause
    not_bound :
        (fd : ℤ) (a : SockAddrIn) (w : W) → eqb_ℤ (os.bind fd a w).0 minus_one ≡ true → Cause
    not_heard : (fd n : ℤ) (w : W) → eqb_ℤ (os.listen fd n w).0 minus_one ≡ true → Cause
    no_thread : ThreadError os fn option flags → Cause

  -- setsockopt is called if NC_REUSEADDR is given.
  pub reused-Cause :
      (reuse : Bool) (fd : ℤ) (w : W)
      → eqb_ℤ (if reuse then os.reuse_addr fd w else (pos 0, w)).0 minus_one ≡ true
      → Cause
  reused-Cause true fd w e = not_reused fd w e
  reused-Cause false fd w e = absurd (ground arith)

module _ {W : Type 0} (os : ListenOs W) (addr : SockAddrIn) where
  pub Reason-false :
      (bound : Bool) (result : ℤ) (err listening last : ℕ)
      → Reason os addr bound result err listening last
      → bound ≡ false
      → eqb_ℤ result minus_one ≡ true
  Reason-false true result err listening last r e = absurd (ground arith)
  Reason-false false result err listening last r e = r.0
