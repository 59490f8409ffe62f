-- ===== src/Examples/ConnectRuns.antt =====
-- Runs of `connect`, and of the operations on the descriptor.
use netclass.Common.{
  ℕ, suc, ℤ, pos, minus_one, ◌+◌, ◌++◌, ap, ◌≡◌, refl, List, [], ◌∷◌, none, some, arith, leb,
  length, if◌then◌else◌,
}
use netclass.Consts.{RetCode, socktype_tcpip}
use netclass.Arch.Defs.{linux_arch, set_nonblocking, by_pton}
use netclass.Socket.State.{NcSocket, pollfd, of_host, zero_addr, set_timeout}
use netclass.Socket.Handle.{FileOs, destroy}
use netclass.Socket.Connect.Defs.{ConnectOs, connect, c_string}
use netclass.Socket.Connect.Sleeping.{SleepContract}
use netclass.Socket.Connect.Outcome.{Connected, connect-Connected}
use netclass.Socket.Connect.Ends.{connect-Returns}
use netclass.Socket.Connect.Opened.{OpenContract}
use netclass.Socket.Connect.Reconnect.{Peer, connect_all, connect_all-Leaks}
use netclass.Examples.Device.{quiet_modes, headers}

-- The state is the time; the peer answers from 200 ms on. Every name has the address 42.
abbrev net_os : ConnectOs ℕ
net_os = record {
  arch = linux_arch headers;
  htons = λ p. p;
  socket = λ d t p w. (pos 5, w);
  inet = record { inet_pton = λ family host old. (pos 1, 42); inet_addr = λ host. 42 };
  get_host_by_name = λ host w. (none, w);
  modes = quiet_modes;
  connect = λ fd a w. (if leb 200 w then pos 0 else minus_one, w);
  last_error = λ w. 115;
  sleep = λ ms w. w + ms;
}

net-SleepContract : SleepContract net_os (λ w. w)
net-SleepContract = record {
  sleeps = λ ms w. refl;
  connect_keeps = λ fd a w. refl;
  get_fd_keeps = λ fd w. refl;
  set_fl_keeps = λ fd flags w. refl;
  set_fionbio_keeps = λ fd pointer w. refl;
  socket_keeps = λ d t p w. refl;
  host_by_name_keeps = λ host w. refl;
}

abbrev web : NcSocket
web = of_host (pollfd (pos 0) 0 0) (119 ∷ 119 ∷ 119 ∷ []) 80 socktype_tcpip

abbrev connected : NcSocket
connected = record web { sockfd = pos 5; ipaddr = 42 }

connect_runs : connect net_os 101 zero_addr web 0 ≡ some (RetCode.ok, connected, 200)
unfolding connect of_host c_string set_nonblocking by_pton
connect_runs = refl

-- With a timeout of 150 ms the second failure is the last.
connect_times_out :
    connect net_os 101 zero_addr (set_timeout web (pos 150)) 0
    ≡ some (RetCode.timedout, set_timeout connected (pos 150), 100)
unfolding connect of_host c_string set_nonblocking by_pton set_timeout
connect_times_out = refl

connect-Connected_example :
    Connected net_os
      (λ w. w)
      (set_timeout web (pos 150))
      0
      RetCode.timedout
      (set_timeout connected (pos 150))
      100
unfolding set_timeout of_host
connect-Connected_example =
    connect-Connected net_os (λ w. w) net-SleepContract 101 zero_addr (set_timeout web (pos 150)) 0
      RetCode.timedout (set_timeout connected (pos 150)) 100 (omega arith) connect_times_out

connect-Returns_example :
    (code : RetCode) × (s' : NcSocket) × (w' : ℕ) × (connect net_os 101 zero_addr web 0
      ≡ some (code, s', w'))
unfolding of_host
connect-Returns_example = connect-Returns net_os 101 zero_addr web 0 (omega arith) (omega arith)

-- The open descriptors; the next one is one more than their number.
abbrev port_os : ConnectOs (List ℤ)
port_os = record {
  arch = linux_arch headers;
  htons = λ p. p;
  socket = λ d t p w. (pos (suc (length w)), pos (suc (length w)) ∷ w);
  inet = record { inet_pton = λ family host old. (pos 1, 42); inet_addr = λ host. 42 };
  get_host_by_name = λ host w. (none, w);
  modes = quiet_modes;
  connect = λ fd a w. (pos 0, w);
  last_error = λ w. 0;
  sleep = λ ms w. w;
}

abbrev without_last : List ℤ → List ℤ
without_last [] = []
without_last (fd ∷ fds) = fds

abbrev port_files : FileOs (List ℤ)
port_files = record {
  close = λ fd w. without_last w;
  fclose = λ file w. w;
  fdopen = λ fd w. (none, w);
  fflush = λ file w. (pos 0, w);
}

port-OpenContract : OpenContract port_os port_files (λ w. w)
port-OpenContract = record {
  opens = λ d t p w. (length w, refl, refl);
  closes = λ fd w fds e. ap without_last e;
  sleep_keeps = λ ms w. refl;
  connect_keeps = λ fd a w. refl;
  host_by_name_keeps = λ host w. refl;
  get_fd_keeps = λ fd w. refl;
  set_fl_keeps = λ fd flags w. refl;
  set_fionbio_keeps = λ fd pointer w. refl;
}

abbrev first_peer : Peer
first_peer = record {
  host = 119 ∷ [];
  port = 80;
  kind = socktype_tcpip;
  stack = zero_addr;
  valid = refl;
}

connect_all-Leaks_example :
    (s' : NcSocket) × (w' : List ℤ) × (lost : List ℤ) × (connect_all port_os 200
        (first_peer ∷ first_peer ∷ first_peer ∷ [])
        web
        []
      ≡ some (s', w'))
    × ((destroy port_files s' w').1 ≡ lost ++ [])
    × (length lost ≡ 2)
unfolding of_host
connect_all-Leaks_example =
    connect_all-Leaks port_os port_files (λ w. w) port-OpenContract 200 first_peer
      (first_peer ∷ first_peer ∷ []) web [] (omega arith) (omega arith) refl
