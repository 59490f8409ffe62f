-- ===== src/Examples/NapRuns.antt =====
-- Listeners whose port is not granted.
use netclass.Common.{
  ℕ, pos, minus_one, ◌+◌, ◌==◌, if◌then◌else◌, uint_of_int, ◌≡◌, refl, false, some, arith,
}
use netclass.Consts.{RetCode}
use netclass.Arch.Defs.{set_nonblocking}
use netclass.Socket.State.{zero_addr}
use netclass.Thread.Defs.{NcThread, new_thread}
use netclass.Listener.Defs.{Listener, ListenOs, new_listener}
use netclass.Listener.Serve.{accept_loop}
use netclass.Listener.Start.{bad_args, start_listening}
use netclass.Listener.Naps.{NeverBound, start_listening-Naps}
use netclass.Listener.Unbound.{granted, InUse, start_listening-granted}
use netclass.Examples.QuietListen.{quiet_listen}

-- The state is the time slept; ::bind fails with EACCES.
abbrev denied_os : ListenOs ℕ
denied_os = record quiet_listen {
  bind = λ fd a w. (minus_one, w);
  last_error = λ w. 13;
  sleep = λ ms w. w + ms;
}

abbrev thread : NcThread
thread = record { ret_val = 0; handle = 0 }

abbrev web : Listener
web = new_listener 80 (pos 0)

-- NC_THREADED and NC_DETACHED | NC_REUSEADDR.
good_args : bad_args 1 (pos 0) (pos 10) ≡ false
unfolding bad_args uint_of_int
good_args = refl

denied-NeverBound : NeverBound denied_os (pos 10) (λ w. w)
denied-NeverBound = record {
  fails = λ fd a w. refl;
  other_error = λ fd a w. refl;
  reuse_works = λ fd w e. refl;
  not_stopped = λ l w. refl;
  sleeps = λ ms w. refl;
  socket = λ d t k w. refl;
  reuse_addr = λ fd w. refl;
  bind = λ fd a w. refl;
  others_keep = λ l w. refl;
  enable_cancel = λ w. refl;
}

start_listening-Naps_example :
    (l' : Listener) × (w' : ℕ) × (start_listening denied_os 11 thread 1 (pos 0) (pos 10) web 7
      ≡ some (some RetCode.failed, l', w'))
    × (w' ≡ 7 + 55000)
start_listening-Naps_example =
    start_listening-Naps denied_os (pos 10) (λ w. w) denied-NeverBound 11 thread 1 (pos 0) web 7
      (λ d t k w. refl) good_args (omega arith)

-- A listener whose port another program has: ::bind fails with EADDRINUSE, and it waits for a
-- connection until it is stopped. The state is the number of times that it has waited.
abbrev taken_os : ListenOs ℕ
taken_os = record quiet_listen {
  others = λ l w. (if w == 0 then l else record l { listening = 0 }, w);
  bind = λ fd a w. (minus_one, w);
  accept = λ fd a w. record { client = minus_one; addr = zero_addr; world = w + 1 };
}

taken-InUse : InUse taken_os
taken-InUse = record { fails = λ fd a w. refl; in_use = λ fd a w. refl }

start_listening-granted_example :
    start_listening taken_os 11 thread 1 (pos 0) (pos 10) web 0
    ≡ start_listening (granted taken_os) 11 thread 1 (pos 0) (pos 10) web 0
start_listening-granted_example =
    start_listening-granted taken_os taken-InUse 11 thread 1 (pos 0) (pos 10) web 0

taken_run :
    start_listening taken_os 11 thread 1 (pos 0) (pos 10) web 0
    ≡ some (some RetCode.ok, record web { sockfd = pos 4 }, 1)
unfolding start_listening set_nonblocking uint_of_int new_thread new_listener accept_loop
taken_run = refl
