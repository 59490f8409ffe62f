-- ===== src/Examples/SelectRuns.antt =====
-- Runs of `writeData` and `readData` of the select build.
use netclass.Common.{
  ℕ, ℤ, pos, negsuc, minus_one, ◌+◌, ◌++◌, true, ◌*◌, ◌≡◌, refl, List, [], ◌∷◌, Option, none, some,
  arith,
}
use netclass.Consts.{RetCode}
use netclass.Arch.Defs.{linux_arch}
use netclass.Socket.State.{NcSocket, of_descriptor, fd_set, zero_addr}
use netclass.Socket.Select.Memory.{Memory, bytes_at}
use netclass.Socket.Select.Os.{SelectOs}
use netclass.Socket.Select.Loop.{Locals, is_set}
use netclass.Socket.Select.Calls.{writing, reading, write_by_select, read_by_select}
use netclass.Socket.Select.Outcome.{Completes}
use netclass.Socket.Select.Write.{SendContract, Written, write_by_select-Completes}
use netclass.Socket.Select.Read.{RecvContract, Stored, read_by_select-Completes}
use netclass.Socket.Select.Again.{IsFull, TimesOut, full-TimesOut}
use netclass.Socket.Select.Wait.{IsIdle, idle-Overruns}
use netclass.Examples.Device.{
  Line, headers, line_send, line_recv, line_send-SendsPrefix, line_recv-Delivers, empty_line,
}

-- The set that was given.
abbrev given_set : Option (List ℤ) → Option (List ℤ) → List ℤ
given_set (some set) _ = set
given_set none (some set) = set
given_set none none = []

abbrev line_select : SelectOs Line
line_select = record {
  arch = linux_arch headers;
  select = λ nfds reads writes sec usec w. record {
    result = pos 1;
    set = given_set reads writes;
    world = w;
  };
  send = λ fd bytes flags w. line_send bytes w;
  sendto = λ fd bytes flags to w. line_send bytes w;
  recv = λ fd len flags w. line_recv len w;
  recvfrom = λ fd len flags to w. line_recv len w;
  shutdown = λ fd how w. w;
  last_error = λ w. 11;
}

line-SendContract : SendContract line_select (λ v. v.out)
line-SendContract = record {
  select_keeps = λ nfds reads writes sec usec w. refl;
  shutdown_keeps = λ fd how w. refl;
  send = λ fd bytes flags w. line_send-SendsPrefix bytes w;
  sendto = λ fd bytes flags to w. line_send-SendsPrefix bytes w;
  send_ready = λ fd bytes flags w e ready h. cc;
  sendto_ready = λ fd bytes flags to w e ready h. cc;
}

line-RecvContract : RecvContract line_select (λ v. v.given)
line-RecvContract = record {
  select_keeps = λ nfds reads writes sec usec w. refl;
  shutdown_keeps = λ fd how w. refl;
  recv = λ fd len flags w. line_recv-Delivers len w;
  recvfrom = λ fd len flags to w. line_recv-Delivers len w;
}

abbrev socket : NcSocket
socket = of_descriptor (fd_set []) (pos 5)

-- A timeout of a quarter of a second.
abbrev hasty : NcSocket
hasty = record (of_descriptor (fd_set []) (pos 5)) { timeout = 250 }

-- The bytes 1, 2, 3, ... from the buffer's start on, and 99 in front of it.
abbrev numbered : Memory
numbered (pos n) = n + 1
numbered (negsuc n) = 99

write_by_select-Completes_example :
    Completes line_select
      (writing line_select)
      (Written line_select (λ v. v.out) line-SendContract [] numbered)
      (pos 5)
      (some (pos 9))
      (write_by_select line_select 103 socket numbered (pos 5) (some (pos 9)) empty_line)
unfolding of_descriptor
write_by_select-Completes_example =
    write_by_select-Completes line_select (λ v. v.out) line-SendContract socket numbered (pos 5)
      (some (pos 9)) empty_line 103 (omega arith) (omega arith) (omega arith)

read_by_select-Completes_example :
    Completes line_select
      (reading line_select)
      (Stored line_select (λ v. v.given) line-RecvContract [] numbered)
      (pos 4)
      none
      (read_by_select line_select 103 socket numbered (pos 4) none empty_line)
unfolding of_descriptor
read_by_select-Completes_example =
    read_by_select-Completes line_select (λ v. v.given) line-RecvContract socket numbered (pos 4)
      none empty_line 103 (omega arith) (omega arith) (omega arith)

abbrev summary : Option (RetCode × Locals Line) → Option (RetCode × Option ℤ × List ℕ)
summary none = none
summary (some (code, t)) = some (code, t.num_actual, t.world.out)

-- Five bytes go out in two sends.
write_runs :
    summary (write_by_select line_select 103 socket numbered (pos 5) (some (pos 9)) empty_line)
    ≡ some (RetCode.ok, some (pos 5), 1 ∷ 2 ∷ 3 ∷ 4 ∷ 5 ∷ [])
unfolding write_by_select of_descriptor bytes_at
write_runs = refl

-- Every send asks to try again; the state is what they have been given.
abbrev full_select : SelectOs (List (List ℕ))
full_select = record {
  arch = linux_arch headers;
  select = λ nfds reads writes sec usec w. record {
    result = pos 1;
    set = given_set reads writes;
    world = w;
  };
  send = λ fd bytes flags w. record { result = minus_one; world = w ++ bytes ∷ [] };
  sendto = λ fd bytes flags to w. record { result = minus_one; world = w ++ bytes ∷ [] };
  recv = λ fd len flags w. record { result = minus_one; bytes = []; from = zero_addr; world = w };
  recvfrom =
      λ fd len flags to w. record { result = minus_one; bytes = []; from = zero_addr; world = w };
  shutdown = λ fd how w. w;
  last_error = λ w. 11;
}

is_set-alone : (fd : ℤ) → is_set fd (fd ∷ []) ≡ true
unfolding is_set
is_set-alone fd = ground arith

abbrev as_given : List (List ℕ) → List (List ℕ)
as_given w = w

full_select-IsFull : IsFull full_select as_given
full_select-IsFull = record {
  selects = λ nfds fd sec usec w. (refl, is_set-alone fd, refl);
  sends = λ fd bytes flags w. record { failed = refl; no_reset = refl; blocks = refl; seen = refl };
  sends_to =
      λ fd bytes flags to w. record { failed = refl; no_reset = refl; blocks = refl; seen = refl };
}

full-TimesOut_example :
    TimesOut full_select as_given numbered 4
      (some (pos 9))
      250
      100
      []
      3
      (write_by_select full_select 5 hasty numbered (pos 5) (some (pos 9)) [])
unfolding of_descriptor
full-TimesOut_example =
    full-TimesOut full_select as_given hasty numbered 4 (some (pos 9)) [] 2 5 full_select-IsFull
      (omega arith) (omega arith) (omega arith) (omega arith)

-- The third send is given two bytes from in front of the buffer.
abbrev offers :
    Option (RetCode × Locals (List (List ℕ))) → Option (RetCode × Option ℤ × List (List ℕ))
offers none = none
offers (some (code, t)) = some (code, t.num_actual, t.world)

full_runs :
    offers (write_by_select full_select 5 hasty numbered (pos 2) (some (pos 9)) [])
    ≡ some (
      RetCode.timedout,
      some (negsuc 2),
      (1 ∷ 2 ∷ []) ∷ (99 ∷ 1 ∷ 2 ∷ []) ∷ (99 ∷ 99 ∷ 1 ∷ 2 ∷ []) ∷ [],
    )
unfolding write_by_select of_descriptor bytes_at
full_runs = refl

-- Nothing is ever ready; the state is the time in microseconds.
abbrev idle_select : SelectOs ℕ
idle_select = record {
  arch = linux_arch headers;
  select = λ nfds reads writes sec usec w. record {
    result = pos 0;
    set = [];
    world = w + (sec * 1000000 + usec);
  };
  send = λ fd bytes flags w. record { result = minus_one; world = w };
  sendto = λ fd bytes flags to w. record { result = minus_one; world = w };
  recv = λ fd len flags w. record { result = minus_one; bytes = []; from = zero_addr; world = w };
  recvfrom =
      λ fd len flags to w. record { result = minus_one; bytes = []; from = zero_addr; world = w };
  shutdown = λ fd how w. w;
  last_error = λ w. 11;
}

idle_select-IsIdle : IsIdle idle_select (λ w. w)
idle_select-IsIdle = record {
  never = λ nfds reads writes sec usec w. refl;
  takes = λ nfds reads writes sec usec w. refl;
}

-- The default timeout of ten seconds takes a hundred.
idle-Overruns_example :
    (t u : Locals ℕ) × (write_by_select idle_select 101 socket numbered (pos 1) none 0
      ≡ some (RetCode.timedout, t))
    × (t.world ≡ 100000000)
    × (read_by_select idle_select 101 socket numbered (pos 1) none 0 ≡ some (RetCode.timedout, u))
    × (u.world ≡ 100000000)
unfolding of_descriptor
idle-Overruns_example =
    idle-Overruns idle_select (λ w. w) socket numbered 0 none 0 99 101 idle_select-IsIdle
      (omega arith) (omega arith) (omega arith) (omega arith) (omega arith)
