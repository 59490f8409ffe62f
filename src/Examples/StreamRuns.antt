-- ===== src/Examples/StreamRuns.antt =====
-- Two sockets at the ends of a pipe.
use netclass.Common.{
  ℕ, zero, suc, ℤ, pos, minus_one, ◌≡◌, refl, sym, ap, ◌∙◌, inl, inr, List, [], ◌∷◌, ◌++◌, length,
  take, drop, min, arith, some, append_assoc, append-nil, length-take, if◌then◌else◌, ◌==◌, ◌⊎◌,
  ◌<◌,
}
use netclass.Consts.{RetCode}
use netclass.Arch.Defs.{linux_arch}
use netclass.Socket.State.{pollfd, zero_addr, of_descriptor, overwrite}
use netclass.Socket.Poll.Os.{PollOs, Sent, Received}
use netclass.Socket.Poll.Loop.{Transfer}
use netclass.Socket.Poll.Calls.{write_data, read_data}
use netclass.Socket.Poll.Contracts.{SendsPrefix, Delivers, PollContract}
use netclass.Socket.Poll.Stream.{Talk, quiet, wrote, read, StreamContract, Talk-Fifo}
use netclass.Examples.Device.{headers, tcp_socket}

-- What has been handed over, and what is under way.
pub record Pipe : Type 0 where
  pub given : List ℕ
  pub inbox : List ℕ

abbrev pipe_wire : Pipe → List ℕ
pipe_wire w = w.given ++ w.inbox

abbrev pipe_handed : Pipe → List ℕ
pipe_handed w = w.given

-- At most three bytes a time.
abbrev pipe_send : List ℕ → Pipe → Sent Pipe
pipe_send bytes w = record {
  result = pos (min 3 (length bytes));
  world = record w { inbox = w.inbox ++ take (min 3 (length bytes)) bytes };
}

abbrev pipe_recv : ℕ → Pipe → Received Pipe
pipe_recv len w =
    let bytes = take (min 3 len) w.inbox in
    record {
      result = if length bytes == 0 then minus_one else pos (length bytes);
      bytes = bytes;
      from = zero_addr;
      world = record { given = w.given ++ bytes; inbox = drop (length bytes) w.inbox };
    }

abbrev pipe_os : PollOs Pipe
pipe_os = record {
  arch = linux_arch headers;
  pollin = 1;
  pollout = 4;
  pollerr = 8;
  poll = λ fd events ms w. record { result = pos 1; revents = events; world = w };
  send = λ fd bytes flags w. pipe_send bytes w;
  sendto = λ fd bytes flags to w. pipe_send bytes w;
  recv = λ fd len flags w. pipe_recv len w;
  recvfrom = λ fd len flags to w. pipe_recv len w;
  shutdown = λ fd how w. w;
  last_error = λ w. 11;
}

take-rest : (n : ℕ) (xs : List ℕ) → take n xs ++ drop (length (take n xs)) xs ≡ xs
take-rest zero xs = refl
take-rest (suc n) [] = refl
take-rest (suc n) (x ∷ xs) = ap (λ l. x ∷ l) (take-rest n xs)

refused-empty : (bs given : List ℕ) → ((bs ≡ []) × (given ++ bs ≡ given)) ⊎ (0 < length bs)
refused-empty [] given = inl (refl, append-nil given)
refused-empty (b ∷ bs) given = inr (omega arith)

pipe_send-SendsPrefix :
    (bytes : List ℕ) (w : Pipe) → SendsPrefix pipe_wire bytes w (pipe_send bytes w)
pipe_send-SendsPrefix bytes w = record {
  count_le = λ k e. ground arith;
  takes = λ k e. rw (← k_is k e) (sym (append_assoc w.given w.inbox _));
  refuses = λ k e. absurd (ground arith);
}
  where
    k_is : (k : ℕ) → ◌≡◌ {A = ℤ} (pos (min 3 (length bytes))) (pos k) → min 3 (length bytes) ≡ k
    k_is k e = ground arith

pipe_recv-Delivers : (len : ℕ) (w : Pipe) → Delivers pipe_handed len w (pipe_recv len w)
pipe_recv-Delivers len w = record {
  count_le = λ k e. ground (arith, length-take (min 3 len) w.inbox);
  stores = λ k e. ground arith;
  gives = λ k e. refl;
  refuses = λ k e. ground (arith, refused-empty (take (min 3 len) w.inbox) w.given);
}

pipe_recv-wire : (len : ℕ) (w : Pipe) → pipe_wire (pipe_recv len w).world ≡ pipe_wire w
pipe_recv-wire len w =
    append_assoc w.given _ _ ∙ ap (λ l. w.given ++ l) (take-rest (min 3 len) w.inbox)

pipe-PollContract : (seen : Pipe → List ℕ) → PollContract pipe_os seen
pipe-PollContract seen = record {
  range = λ fd events ms w. inr (inr refl);
  poll_keeps = λ fd events ms w. refl;
  shutdown_keeps = λ fd how w. refl;
}

pipe-StreamContract : StreamContract pipe_os pipe_os pipe_wire pipe_handed
pipe-StreamContract = record {
  sends = record {
    poll = pipe-PollContract pipe_wire;
    send = λ fd bytes flags w. pipe_send-SendsPrefix bytes w;
    sendto = λ fd bytes flags to w. pipe_send-SendsPrefix bytes w;
  };
  receives = record {
    poll = pipe-PollContract pipe_handed;
    recv = λ fd len flags w. pipe_recv-Delivers len w;
    recvfrom = λ fd len flags to w. pipe_recv-Delivers len w;
  };
  writer_waits = pipe-PollContract pipe_handed;
  reader_waits = pipe-PollContract pipe_wire;
  send_keeps = λ fd bytes flags w. refl;
  sendto_keeps = λ fd bytes flags to w. refl;
  recv_keeps = λ fd len flags w. pipe_recv-wire len w;
  recvfrom_keeps = λ fd len flags to w. pipe_recv-wire len w;
  in_order = λ w. (w.inbox, refl);
}

abbrev message : List ℕ
message = 1 ∷ 2 ∷ 3 ∷ 4 ∷ 5 ∷ []

abbrev empty_pipe : Pipe
empty_pipe = record { given = []; inbox = [] }

-- Five bytes are written in two sends, and two of them are read.
abbrev sent : Transfer Pipe
sent = record {
  buf = message;
  off = 5;
  remaining = pos 0;
  num_actual = some (pos 5);
  clock = 200;
  timedout = 0;
  code = RetCode.ok;
  sock = record tcp_socket { listener = pollfd (pos 5) 4 4 };
  world = record { given = []; inbox = message };
}

abbrev received : Transfer Pipe
received = record {
  buf = 1 ∷ 2 ∷ [];
  off = 2;
  remaining = pos 0;
  num_actual = some (pos 2);
  clock = 100;
  timedout = 0;
  code = RetCode.ok;
  sock = record tcp_socket { listener = pollfd (pos 5) 1 1 };
  world = record { given = 1 ∷ 2 ∷ []; inbox = 3 ∷ 4 ∷ 5 ∷ [] };
}

write_runs :
    write_data pipe_os 103 tcp_socket message (pos 5) (some (pos 9)) empty_pipe
    ≡ some (RetCode.ok, sent)
unfolding write_data of_descriptor
write_runs = refl

read_runs :
    read_data pipe_os 103 tcp_socket (8 ∷ 8 ∷ []) (pos 2) (some (pos 9)) sent.world
    ≡ some (RetCode.ok, received)
unfolding read_data of_descriptor overwrite
read_runs = refl

two_calls :
    Talk pipe_os pipe_os pipe_wire pipe_handed empty_pipe message (1 ∷ 2 ∷ []) received.world
two_calls =
    read (wrote quiet 103 tcp_socket message (pos 5) (pos 9) RetCode.ok sent 5 write_runs refl) 103
      tcp_socket (8 ∷ 8 ∷ []) (pos 2) (pos 9) RetCode.ok received 2 read_runs refl

Talk-Fifo_example : (flying : List ℕ) × (message ≡ (1 ∷ 2 ∷ []) ++ flying)
Talk-Fifo_example =
    Talk-Fifo pipe_os pipe_os pipe_wire pipe_handed pipe-StreamContract refl two_calls
