-- ===== src/Examples/BuildRuns.antt =====
-- One run of writeData and one of readData in both builds: a descriptor that is ready every other time.
use netclass.Common.{
  if◌then◌else◌, ◌∙◌, minus_one, ℕ, suc, ℤ, pos, negsuc, ◌+◌, ◌-◌, ◌%◌, ◌≡◌, refl, ap, true, inl,
  List, [], ◌∷◌, ◌++◌, Option, some, none, has_bit, length, take, min, arith, Bool, false, ◌<◌,
  ◌==◌,
}
use netclass.Consts.{RetCode}
use netclass.Arch.Defs.{linux_arch}
use netclass.Socket.State.{of_descriptor, zero_addr, overwrite}
use netclass.Socket.Poll.Os.{PollOs, Polled, Sent, Received}
use netclass.Socket.Poll.Calls.{write_data, read_data}
use netclass.Socket.Select.Memory.{Memory, bytes_at}
use netclass.Socket.Select.Os.{Selected}
use netclass.Socket.Select.Loop.{is_set}
use netclass.Socket.Select.Calls.{write_by_select, read_by_select}
use netclass.Socket.Builds.System.{
  Select, with_select, SameAnswer, IsReady, both_wait, both_ready, MovesOrFails, Fills, SameWrites,
  SameReads,
}
use netclass.Socket.Builds.Loops.{Seen, selected, polled}
use netclass.Socket.Builds.Same.{write_by_select-write_data, read_by_select-read_data}
use netclass.Examples.Device.{headers, tcp_socket}

-- How often the system was asked, and what has gone out.
record Gate : Type 0 where
  asked : ℕ
  out : List ℕ

abbrev shut : Gate
shut = record { asked = 0; out = [] }

abbrev later : Gate → Gate
later w = record w { asked = suc w.asked }

abbrev polled_if : Bool → ℕ → Gate → Polled Gate
polled_if true event w = record { result = pos 1; revents = event; world = later w }
polled_if false event w = record { result = pos 0; revents = 0; world = later w }

abbrev selected_if : Bool → List ℤ → Gate → Selected Gate
selected_if true set w = record { result = pos 1; set = set; world = later w }
selected_if false set w = record { result = pos 0; set = []; world = later w }

-- The gate is open on odd counts.
abbrev is_open : Gate → Bool
is_open w = w.asked % 2 == 1

abbrev given_set : Option (List ℤ) → Option (List ℤ) → List ℤ
given_set (some set) _ = set
given_set none (some set) = set
given_set none none = []

-- At most three bytes are taken, if the gate has been found open, and one is given: how often the system
-- was asked. Else the calls ask to try again.
abbrev gate_send : List ℕ → Gate → Sent Gate
gate_send bytes w = if is_open w then record { result = minus_one; world = w } else record {
  result = pos (min 3 (length bytes));
  world = record w { out = w.out ++ take (min 3 (length bytes)) bytes };
}

abbrev gate_recv : Gate → Received Gate
gate_recv w =
    if is_open w
    then record { result = minus_one; bytes = []; from = zero_addr; world = w }
    else record { result = pos 1; bytes = w.asked ∷ []; from = zero_addr; world = w }

abbrev gate_os : PollOs Gate
gate_os = record {
  arch = linux_arch headers;
  pollin = 1;
  pollout = 4;
  pollerr = 8;
  poll = λ fd events ms w. polled_if (is_open w) events w;
  send = λ fd bytes flags w. gate_send bytes w;
  sendto = λ fd bytes flags to w. gate_send bytes w;
  recv = λ fd len flags w. gate_recv w;
  recvfrom = λ fd len flags to w. gate_recv w;
  shutdown = λ fd how w. w;
  last_error = λ w. 11;
}

abbrev gate_sets : Select Gate
gate_sets nfds reads writes sec usec w = selected_if (is_open w) (given_set reads writes) w

is_set-alone : (fd : ℤ) → is_set fd (fd ∷ []) ≡ true
unfolding is_set
is_set-alone fd = ground arith

gate-SameAnswer :
    (open_now : Bool) (event : ℕ) (fd : ℤ) (w : Gate)
    → has_bit event 8 ≡ false
    → has_bit event event ≡ true
    → SameAnswer gate_os event fd (polled_if open_now event w) (selected_if open_now (fd ∷ []) w)
gate-SameAnswer true event fd w fine there =
    both_ready event (fd ∷ []) (later w) fine there (is_set-alone fd)
gate-SameAnswer false event fd w fine there = both_wait 0 [] (later w)

polled_if-open :
    (open_now : Bool) (event : ℕ) (w : Gate)
    → (polled_if open_now event w).result ≡ pos 1
    → ((polled_if open_now event w).world ≡ later w) × (open_now ≡ true)
polled_if-open true event w e = (refl, refl)
polled_if-open false event w e = absurd (ground arith)

-- A gate that was found open is counted even.
IsReady-even : (event : ℕ) (fd : ℤ) (w : Gate) → IsReady gate_os event fd w → is_open w ≡ false
IsReady-even event fd w r =
    let (after, odd) = polled_if-open (is_open r.before) event r.before r.found in
    ap is_open (r.after ∙ after) ∙ ground (arith, odd)

gate_send-MovesOrFails :
    (bytes : List ℕ) (w : Gate)
    → is_open w ≡ false
    → 0 < length bytes
    → let r = gate_send bytes w in MovesOrFails gate_os (length bytes) r.result r.world
gate_send-MovesOrFails bytes w even some_left =
    rw even (inl (min 3 (length bytes) - 1, ap pos (omega arith), omega arith))

gate_recv-Fills :
    (len : ℕ) (w : Gate) → is_open w ≡ false → 0 < len → Fills gate_os len (gate_recv w)
gate_recv-Fills len w even room =
    rw even (record { moves = inl (0, refl, omega arith); stores = omega arith })

gate-SameWrites : SameWrites gate_os gate_sets
gate-SameWrites = record {
  answers = λ fd ms sec usec w. gate-SameAnswer (is_open w) 4 fd w refl refl;
  sends = λ fd bytes flags w found. gate_send-MovesOrFails bytes w (IsReady-even 4 fd w found);
  sends_to =
      λ fd bytes flags to w found. gate_send-MovesOrFails bytes w (IsReady-even 4 fd w found);
}

gate-SameReads : SameReads gate_os gate_sets
gate-SameReads = record {
  answers = λ fd ms sec usec w. gate-SameAnswer (is_open w) 1 fd w refl refl;
  receives = λ fd len flags w found. gate_recv-Fills len w (IsReady-even 1 fd w found);
  receives_from = λ fd len flags to w found. gate_recv-Fills len w (IsReady-even 1 fd w found);
}

-- The bytes 1, 2, 3, ... from the buffer's start on.
abbrev counting : Memory
counting (pos n) = n + 1
counting (negsuc n) = 0

write_by_select-write_data_example :
    selected 6 (
      write_by_select
        (with_select gate_os gate_sets)
        103
        tcp_socket
        counting
        (pos 5)
        (some (pos 9))
        shut)
    ≡ polled (
        write_data gate_os 103 tcp_socket (bytes_at counting (pos 0) 6) (pos 5) (some (pos 9)) shut)
write_by_select-write_data_example =
    write_by_select-write_data gate_os gate_sets tcp_socket counting 6 (pos 5) (some (pos 9)) shut
      (omega arith) gate-SameWrites 103

read_by_select-read_data_example :
    selected 6
      (read_by_select (with_select gate_os gate_sets) 103 tcp_socket counting (pos 3) none shut)
    ≡ polled (read_data gate_os 103 tcp_socket (bytes_at counting (pos 0) 6) (pos 3) none shut)
read_by_select-read_data_example =
    read_by_select-read_data gate_os gate_sets tcp_socket counting 6 (pos 3) none shut (omega arith)
      gate-SameReads 103

abbrev summary : Option (Seen Gate) → Option (RetCode × List ℕ × Option ℤ × ℕ × List ℕ)
summary none = none
summary (some t) = some (t.code, t.buf, t.num_actual, t.clock, t.world.out)

-- Five bytes go out in two sends, with two rounds of waiting.
write_runs :
    summary (
      selected 6 (
        write_by_select
          (with_select gate_os gate_sets)
          103
          tcp_socket
          counting
          (pos 5)
          (some (pos 9))
          shut))
    ≡ some (RetCode.ok, 1 ∷ 2 ∷ 3 ∷ 4 ∷ 5 ∷ 6 ∷ [], some (pos 5), 400, 1 ∷ 2 ∷ 3 ∷ 4 ∷ 5 ∷ [])
unfolding write_by_select of_descriptor bytes_at
write_runs = refl

-- Three bytes come in, one a time.
read_runs :
    summary
      (polled (read_data gate_os 103 tcp_socket (bytes_at counting (pos 0) 6) (pos 3) none shut))
    ≡ some (RetCode.ok, 2 ∷ 4 ∷ 6 ∷ 4 ∷ 5 ∷ 6 ∷ [], none, 600, [])
unfolding read_data of_descriptor bytes_at overwrite
read_runs = refl
