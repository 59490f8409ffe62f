-- ===== src/Examples/QuietListen.antt =====
-- A system for a listener on which nothing happens: the base of those on which something does.
use netclass.Common.{pos, minus_one, true, none, replicate}
use netclass.Consts.{max_dgram_buf_len}
use netclass.Arch.Defs.{linux_arch}
use netclass.Socket.State.{pollfd, zero_addr}
use netclass.Thread.Defs.{ThreadOs}
use netclass.Listener.Defs.{ListenOs, Given}
use netclass.Examples.Device.{quiet_modes, headers}

abbrev pub quiet_threads : {W : Type 0} → ThreadOs W Given
quiet_threads = record {
  create = λ old fn a w. record { result = pos 0; stored = 7; world = w };
  join = λ h old w. record { result = pos 0; stored = 0; world = w };
  detach = λ h w. (pos 0, w);
  cancel = λ h w. w;
  enable_cancel = λ w. w;
}

abbrev pub quiet_listen : {W : Type 0} → ListenOs W
quiet_listen = record {
  arch = linux_arch headers;
  htons = λ p. p;
  any_addr = 0;
  zeroed = pollfd (pos 0) 0 0;
  have_threads = true;
  files = record {
    close = λ fd w. w;
    fclose = λ file w. w;
    fdopen = λ fd w. (none, w);
    fflush = λ file w. (pos 0, w);
  };
  threads = quiet_threads;
  others = λ l w. (l, w);
  call = λ fn g w. w;
  allocates = λ w. true;
  fresh_bytes = λ w. replicate max_dgram_buf_len 0;
  socket = λ d t p w. (pos 4, w);
  reuse_addr = λ fd w. (pos 0, w);
  bind = λ fd a w. (pos 0, w);
  last_error = λ w. 98;
  listen = λ fd n w. (pos 0, w);
  modes = quiet_modes;
  accept = λ fd a w. record { client = minus_one; addr = zero_addr; world = w };
  recv_from = λ fd buf a w. record { count = pos 0; buf = buf; addr = a; world = w };
  sleep = λ ms w. w;
  shutdown = λ fd how w. w;
}
