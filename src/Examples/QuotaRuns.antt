-- ===== src/Examples/QuotaRuns.antt =====
-- Calls of the poll build on a line that moves three bytes a time.
use netclass.Common.{ℕ, pos, refl, min, none, arith, replicate, inr}
use netclass.Socket.State.{NcSocket, of_descriptor, set_timeout, zero_addr}
use netclass.Socket.Poll.Os.{PollOs, Received}
use netclass.Socket.Poll.Calls.{write_data, read_data}
use netclass.Socket.Poll.Quota.{SteadyLine, Rationed, steady-Rationed}
use netclass.Examples.Device.{Line, line_os, empty_line, tcp_socket}

abbrev sevens : ℕ → Line → Received Line
sevens len w = record {
  result = pos (min 3 len);
  bytes = replicate (min 3 len) 7;
  from = zero_addr;
  world = w;
}

abbrev busy_os : PollOs Line
busy_os = record line_os {
  recv = λ fd len flags w. sevens len w;
  recvfrom = λ fd len flags to w. sevens len w;
}

busy-SteadyLine : SteadyLine busy_os 3
busy-SteadyLine = record {
  write_ready = record {
    ready = λ fd ms w. refl;
    no_error = λ fd ms w. refl;
    marked = λ fd ms w. refl;
  };
  read_ready = record {
    ready = λ fd ms w. refl;
    no_error = λ fd ms w. refl;
    marked = λ fd ms w. refl;
  };
  send = λ fd bytes flags w room. ground arith;
  sendto = λ fd bytes flags to w room. ground arith;
  recv = λ fd len flags w room. ground arith;
  recvfrom = λ fd len flags to w room. ground arith;
}

-- With a timeout of 250 ms nine bytes of nine are moved, and without a count that is a time-out.
abbrev hasty : NcSocket
hasty = set_timeout tcp_socket (pos 250)

steady-Rationed_example :
    Rationed busy_os 3 busy-SteadyLine hasty
      (replicate 9 1)
      9
      none
      empty_line
      9
      (write_data busy_os 4 hasty (replicate 9 1) (pos 9) none empty_line)
    × Rationed busy_os 3 busy-SteadyLine hasty
        (replicate 9 1)
        9
        none
        empty_line
        9
        (read_data busy_os 4 hasty (replicate 9 1) (pos 9) none empty_line)
unfolding set_timeout of_descriptor
steady-Rationed_example =
    steady-Rationed busy_os 3 busy-SteadyLine hasty (replicate 9 1) 9 none empty_line 2 4
      (omega arith) (omega arith) (omega arith) (inr (omega arith)) (omega arith) (omega arith)
      (omega arith)
