-- ===== src/Examples/PollRuns.antt =====
-- Runs of `writeData` and `readData` of the poll build.
use netclass.Common.{
  ℕ, pos, minus_one, ◌^◌, uint_of_int, ◌≡◌, refl, List, [], ◌∷◌, none, some, arith,
}
use netclass.Consts.{RetCode}
use netclass.Socket.State.{NcSocket, of_descriptor, set_timeout, overwrite, pollfd}
use netclass.Socket.Poll.Loop.{Transfer}
use netclass.Socket.Poll.Calls.{write_data, read_data, writing, reading}
use netclass.Socket.Poll.Outcome.{Outcome}
use netclass.Socket.Poll.Progress.{Written, Stored}
use netclass.Socket.Poll.Write.{write_data-Outcome, write_data-Returns}
use netclass.Socket.Poll.Read.{read_data-Outcome, read_data-Returns}
use netclass.Socket.Poll.Stall.{aligned_clock_hangs}
use netclass.Examples.Device.{
  Line, line_os, idle_os, empty_line, tcp_socket, line-SendContract, line-RecvContract,
}

abbrev message : List ℕ
message = 1 ∷ 2 ∷ 3 ∷ 4 ∷ 5 ∷ []

-- Five bytes go out in two sends.
abbrev sent : Transfer Line
sent = record {
  buf = message;
  off = 5;
  remaining = pos 0;
  num_actual = some (pos 5);
  clock = 200;
  timedout = 0;
  code = RetCode.ok;
  sock = record tcp_socket { listener = pollfd (pos 5) 4 4 };
  world = record empty_line { out = message };
}

write_runs :
    write_data line_os 103 tcp_socket message (pos 5) (some (pos 9)) empty_line
    ≡ some (RetCode.ok, sent)
unfolding write_data of_descriptor
write_runs = refl

write_data-Outcome_example :
    Outcome line_os
      (writing line_os)
      (Written (λ v. v.out) [] message)
      (pos 5)
      (some (pos 9))
      RetCode.ok
      sent
unfolding of_descriptor
write_data-Outcome_example =
    write_data-Outcome line_os (λ v. v.out) line-SendContract tcp_socket message (pos 5)
      (some (pos 9)) empty_line 103 RetCode.ok sent write_runs

write_data-Returns_example :
    (code : RetCode) × (t : Transfer Line) × (write_data line_os 103 tcp_socket message
        (pos 5)
        none
        empty_line
      ≡ some (code, t))
unfolding of_descriptor
write_data-Returns_example =
    write_data-Returns line_os (λ v. v.out) line-SendContract tcp_socket message (pos 5) none
      empty_line 103 (omega arith) (omega arith) (omega arith)

-- Four bytes wait; the fifth never comes, and the call reports the four after a hundred rounds.
abbrev received : Transfer Line
received = record {
  buf = 7 ∷ 8 ∷ 9 ∷ 10 ∷ 5 ∷ [];
  off = 4;
  remaining = pos 0;
  num_actual = some (pos 4);
  clock = 10000;
  timedout = 1;
  code = RetCode.moredata;
  sock = record tcp_socket { listener = pollfd (pos 5) 1 1 };
  world = record empty_line { inbox = []; given = 7 ∷ 8 ∷ 9 ∷ 10 ∷ [] };
}

read_runs :
    read_data line_os 103 tcp_socket message (pos 5) (some (pos 9)) empty_line
    ≡ some (RetCode.moredata, received)
unfolding read_data of_descriptor overwrite
read_runs = refl

read_data-Outcome_example :
    Outcome line_os
      (reading line_os)
      (Stored (λ v. v.given) [] message)
      (pos 5)
      (some (pos 9))
      RetCode.moredata
      received
unfolding of_descriptor
read_data-Outcome_example =
    read_data-Outcome line_os (λ v. v.given) line-RecvContract tcp_socket message (pos 5)
      (some (pos 9)) empty_line 103 RetCode.moredata received read_runs

read_data-Returns_example :
    (code : RetCode) × (t : Transfer Line) × (read_data line_os 103 tcp_socket message
        (pos 5)
        none
        empty_line
      ≡ some (code, t))
unfolding of_descriptor
read_data-Returns_example =
    read_data-Returns line_os (λ v. v.given) line-RecvContract tcp_socket message (pos 5) none
      empty_line 103 (omega arith) (omega arith) (omega arith)

-- setTimeout(-1), with the default polling time of 100 ms: the clock goes in units of 4.
abbrev patient : NcSocket
patient = set_timeout tcp_socket minus_one

aligned_clock_hangs_example :
    (write_data idle_os 1000 patient message (pos 5) none empty_line ≡ none)
    × (read_data idle_os 1000 patient message (pos 5) none empty_line ≡ none)
unfolding of_descriptor set_timeout uint_of_int
aligned_clock_hangs_example =
    aligned_clock_hangs idle_os patient message 4 none empty_line 1000 4 25 (2 ^ 30)
      (record { never = λ fd events ms w. refl }) refl (omega arith) (omega arith)
