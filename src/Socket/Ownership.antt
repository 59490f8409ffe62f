-- ===== src/Socket/Ownership.antt =====
-- src/ncsocket.cpp: how close and the destructor can close a descriptor that the socket does not own.
use netclass.Common.{ℕ, ℤ, pos, minus_one, ◌≡◌, ◌≢◌, refl, List, some, arith}
use netclass.Consts.{RetCode}
use netclass.Socket.State.{NcSocket, PollObject, of_host}
use netclass.Socket.Handle.{FileOs, close, destroy, flush}

module _ {W : Type 0} (os : FileOs W) where
  -- After a flush that opened a stream, close and the destructor both close the descriptor: close by
  -- itself, the destructor through the stream, which still stands on it.
  pub flush-closes_twice :
      (s s' : NcSocket) (w w' : W) (code : RetCode) (file : ℕ)
      → flush os s w ≡ (code, s', w')
      → s'.stdiofd ≡ some file
      → s.sockfd ≢ minus_one
      → let (s'', w'') = close os s' w' in
        (destroy os s'' w'').1 ≡ os.fclose file (os.close s.sockfd w')
  unfolding flush close destroy
  flush-closes_twice s s' w w' code file e stream open_fd = ground arith

  -- A socket made from a host name and not yet connected does not hold descriptor 0, yet close closes
  -- it, while the destructor leaves it alone.
  pub of_host-closes_zero :
      (zeroed : PollObject) (host : List ℕ) (port : ℕ) (sock_type : ℤ) (w : W)
      → ((close os (of_host zeroed host port sock_type) w).1 ≡ os.close (pos 0) w)
        × ((destroy os (of_host zeroed host port sock_type) w).1 ≡ w)
  unfolding close destroy of_host
  of_host-closes_zero zeroed host port sock_type w = (refl, refl)
