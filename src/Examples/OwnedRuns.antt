-- ===== src/Examples/OwnedRuns.antt =====
-- Runs of an ncSocket that is used, closed and destroyed.
use netclass.Common.{ℕ, ℤ, pos, minus_one, ◌≡◌, refl, List, [], ◌∷◌, ◌++◌, length, none, some}
use netclass.Consts.{RetCode}
use netclass.Arch.Defs.{linux_arch}
use netclass.Socket.State.{NcSocket, pollfd, of_descriptor, zero_addr}
use netclass.Socket.Handle.{FileOs, close, destroy}
use netclass.Socket.Poll.Os.{PollOs}
use netclass.Socket.Poll.Loop.{Transfer}
use netclass.Socket.Poll.Calls.{write_data, begin}
use netclass.Socket.Owned.{
  CloseContract, Uses, unused, closes, writes, Once, Uses-Once, destroy-closes_once,
}
use netclass.Examples.Device.{headers}

-- The descriptors that were closed, and the bytes that were sent.
record Log : Type 0 where
  gone : List ℤ
  out : List ℕ

abbrev log_os : PollOs Log
log_os = record {
  arch = linux_arch headers;
  pollin = 1;
  pollout = 4;
  pollerr = 8;
  poll = λ fd events ms w. record { result = pos 1; revents = events; world = w };
  send = λ fd bytes flags w. record {
    result = pos (length bytes);
    world = record w { out = w.out ++ bytes };
  };
  sendto = λ fd bytes flags to w. record {
    result = pos (length bytes);
    world = record w { out = w.out ++ bytes };
  };
  recv = λ fd len flags w. record { result = minus_one; bytes = []; from = zero_addr; world = w };
  recvfrom =
      λ fd len flags to w. record { result = minus_one; bytes = []; from = zero_addr; world = w };
  shutdown = λ fd how w. w;
  last_error = λ w. 11;
}

abbrev log_files : FileOs Log
log_files = record {
  close = λ fd w. record w { gone = fd ∷ w.gone };
  fclose = λ file w. w;
  fdopen = λ fd w. (some 1, w);
  fflush = λ file w. (pos 0, w);
}

abbrev gone_of : Log → List ℤ
gone_of w = w.gone

log-CloseContract : CloseContract log_os log_files gone_of
log-CloseContract = record {
  closes = λ fd w. refl;
  poll_keeps = λ fd events ms w. refl;
  shutdown_keeps = λ fd how w. refl;
  send_keeps = λ fd bytes flags w. refl;
  sendto_keeps = λ fd bytes flags to w. refl;
  recv_keeps = λ fd len flags w. refl;
  recvfrom_keeps = λ fd len flags to w. refl;
}

abbrev plain : NcSocket
plain = of_descriptor (pollfd (pos 0) 0 0) (pos 5)

abbrev start : Log
start = record { gone = []; out = [] }

-- The state after two bytes have been written.
abbrev written : Transfer Log
written = record (begin log_os plain (1 ∷ 2 ∷ []) (pos 2) none start) {
  off = 2;
  remaining = pos 0;
  clock = 100;
  sock = record plain { listener = pollfd (pos 5) 4 4 };
  world = record { gone = []; out = 1 ∷ 2 ∷ [] };
}

write_runs : write_data log_os 3 plain (1 ∷ 2 ∷ []) (pos 2) none start ≡ some (RetCode.ok, written)
unfolding write_data of_descriptor
write_runs = refl

-- The socket writes, is closed, and is destroyed.
abbrev closed_socket : NcSocket
closed_socket = (close log_files written.sock written.world).0

abbrev closed_world : Log
closed_world = (close log_files written.sock written.world).1

session : Uses log_os log_files gone_of plain start closed_socket closed_world
session = closes (writes 3 (1 ∷ 2 ∷ []) (pos 2) none RetCode.ok written unused write_runs)

Uses-Once_example : Once log_os log_files gone_of plain.sockfd [] closed_socket closed_world
unfolding of_descriptor
Uses-Once_example =
    Uses-Once log_os log_files gone_of plain closed_socket start closed_world log-CloseContract refl
      session

destroy-closes_once_example : (destroy log_files closed_socket closed_world).1.gone ≡ pos 5 ∷ []
destroy-closes_once_example =
    destroy-closes_once log_os log_files gone_of (pollfd (pos 0) 0 0) 4 closed_socket start
      closed_world log-CloseContract session
