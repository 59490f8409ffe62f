-- ===== src/Examples/Device.antt =====
-- Concrete systems for the interfaces: a line that takes three bytes at a time, and one that is
-- never ready.
use netclass.Common.{
  ℕ, pos, minus_one, ◌≡◌, refl, inl, inr, List, [], ◌∷◌, ◌++◌, length, take, drop, min, arith,
  length-take, append-nil, ◌⊎◌, ◌<◌, if◌then◌else◌, ◌==◌,
}
use netclass.Arch.Defs.{PosixHeaders, ModeCalls, linux_arch}
use netclass.Socket.State.{NcSocket, PollObject, of_descriptor, zero_addr}
use netclass.Socket.Poll.Os.{PollOs, Sent, Received}
use netclass.Socket.Poll.Contracts.{SendsPrefix, Delivers, SendContract, RecvContract}

abbrev pub headers : PosixHeaders
headers = record {
  af_inet = 2;
  sock_stream = 1;
  sock_dgram = 2;
  msg_nosignal = 0x4000;
  ealready = 114;
  einprogress = 115;
  eagain = 11;
  epipe = 32;
  econnreset = 104;
  eaddrinuse = 98;
  inaddr_none = 0xffffffff;
  o_nonblock = 0x800;
}

abbrev pub quiet_modes : {W : Type 0} → ModeCalls W
quiet_modes = record {
  get_fd = λ fd w. (pos 0, w);
  set_fl = λ fd flags w. w;
  set_fionbio = λ fd pointer w. w;
}

-- What has been sent, what waits to be read, and what has been handed over.
pub record Line : Type 0 where
  pub out : List ℕ
  pub inbox : List ℕ
  pub given : List ℕ

abbrev pub line_send : List ℕ → Line → Sent Line
line_send bytes w = record {
  result = pos (min 3 (length bytes));
  world = record w { out = w.out ++ take (min 3 (length bytes)) bytes };
}

-- At most three bytes of the inbox; an empty inbox is an error, EAGAIN.
abbrev pub line_recv : ℕ → Line → Received Line
line_recv len w =
    let bytes = take (min 3 len) w.inbox in
    record {
      result = if length bytes == 0 then minus_one else pos (length bytes);
      bytes = bytes;
      from = zero_addr;
      world = record w { inbox = drop (length bytes) w.inbox; given = w.given ++ bytes };
    }

abbrev pub line_os : PollOs Line
line_os = record {
  arch = linux_arch headers;
  pollin = 1;
  pollout = 4;
  pollerr = 8;
  poll = λ fd events ms w. record { result = pos 1; revents = events; world = w };
  send = λ fd bytes flags w. line_send bytes w;
  sendto = λ fd bytes flags to w. line_send bytes w;
  recv = λ fd len flags w. line_recv len w;
  recvfrom = λ fd len flags to w. line_recv len w;
  shutdown = λ fd how w. w;
  last_error = λ w. 11;
}

pub line_send-SendsPrefix :
    (bytes : List ℕ) (w : Line) → SendsPrefix (λ v. v.out) bytes w (line_send bytes w)
line_send-SendsPrefix bytes w = record {
  count_le = λ k e. ground arith;
  takes = λ k e. ground arith;
  refuses = λ k e. cc;
}

refused-empty : (bs given : List ℕ) → ((bs ≡ []) × (given ++ bs ≡ given)) ⊎ (0 < length bs)
refused-empty [] given = inl (refl, append-nil given)
refused-empty (b ∷ bs) given = inr (omega arith)

pub line_recv-Delivers : (len : ℕ) (w : Line) → Delivers (λ v. v.given) len w (line_recv len w)
line_recv-Delivers len w = record {
  count_le = λ k e. ground (arith, length-take (min 3 len) w.inbox);
  stores = λ k e. ground arith;
  gives = λ k e. refl;
  refuses = λ k e. ground (arith, refused-empty (take (min 3 len) w.inbox) w.given);
}

pub line-SendContract : SendContract line_os (λ v. v.out)
line-SendContract = record {
  poll = record {
    range = λ fd events ms w. inr (inr refl);
    poll_keeps = λ fd events ms w. refl;
    shutdown_keeps = λ fd how w. refl;
  };
  send = λ fd bytes flags w. line_send-SendsPrefix bytes w;
  sendto = λ fd bytes flags to w. line_send-SendsPrefix bytes w;
}

pub line-RecvContract : RecvContract line_os (λ v. v.given)
line-RecvContract = record {
  poll = record {
    range = λ fd events ms w. inr (inr refl);
    poll_keeps = λ fd events ms w. refl;
    shutdown_keeps = λ fd how w. refl;
  };
  recv = λ fd len flags w. line_recv-Delivers len w;
  recvfrom = λ fd len flags to w. line_recv-Delivers len w;
}

abbrev pub empty_line : Line
empty_line = record { out = []; inbox = 7 ∷ 8 ∷ 9 ∷ 10 ∷ []; given = [] }

abbrev pub tcp_socket : NcSocket
tcp_socket = of_descriptor (PollObject.pollfd (pos 0) 0 0) (pos 5)

-- The same line, never ready.
abbrev pub idle_os : PollOs Line
idle_os = record line_os {
  poll = λ fd events ms w. record { result = pos 0; revents = 0; world = w };
}
