-- ===== src/Examples/UdpRuns.antt =====
-- A UDP socket on a system that logs the addresses of the datagrams.
use netclass.Common.{ℕ, pos, ◌≡◌, refl, List, [], ◌∷◌, ◌++◌, length, none, some, arith, replicate}
use netclass.Consts.{RetCode}
use netclass.Arch.Defs.{linux_arch, set_nonblocking, by_pton}
use netclass.Socket.State.{
  NcSocket, SockAddrIn, of_host, pollfd, zero_addr, default_socktype, default_num_actual,
}
use netclass.Socket.Connect.Defs.{ConnectOs, connect, c_string}
use netclass.Socket.Poll.Os.{PollOs}
use netclass.Socket.Poll.Loop.{Transfer}
use netclass.Socket.Poll.Calls.{write_data}
use netclass.Socket.Udp.{AddressContract, Aimed, write_data-connect}
use netclass.Examples.Device.{headers, quiet_modes}

abbrev Log : Type 0
Log = List SockAddrIn

abbrev log_net : ConnectOs Log
log_net = record {
  arch = linux_arch headers;
  htons = λ p. p;
  socket = λ d t p w. (pos 5, w);
  inet = record { inet_pton = λ family host old. (pos 1, 42); inet_addr = λ host. 42 };
  get_host_by_name = λ host w. (none, w);
  modes = quiet_modes;
  connect = λ fd a w. (pos 0, w);
  last_error = λ w. 0;
  sleep = λ ms w. w;
}

abbrev log_line : PollOs Log
log_line = record {
  arch = linux_arch headers;
  pollin = 1;
  pollout = 4;
  pollerr = 8;
  poll = λ fd events ms w. record { result = pos 1; revents = events; world = w };
  send = λ fd bytes flags w. record { result = pos (length bytes); world = w };
  sendto = λ fd bytes flags to w. record { result = pos (length bytes); world = to ∷ w };
  recv = λ fd len flags w. record { result = pos 0; bytes = []; from = zero_addr; world = w };
  recvfrom =
      λ fd len flags to w. record { result = pos 0; bytes = []; from = zero_addr; world = w };
  shutdown = λ fd how w. w;
  last_error = λ w. 11;
}

log-AddressContract : AddressContract log_line (λ w. w)
log-AddressContract = record {
  logs = λ fd bytes flags to w. refl;
  polls = λ fd events ms w. refl;
  shuts = λ fd how w. refl;
}

-- The default kind of a socket for a host is UDP.
abbrev resolver : NcSocket
resolver = of_host (pollfd (pos 0) 0 0) (100 ∷ []) 53 default_socktype

abbrev name_server : SockAddrIn
name_server = record zero_addr { sin_family = 2; sin_port = 53; sin_addr = 42 }

abbrev aimed : NcSocket
aimed = record resolver { sockfd = pos 5; ipaddr = 42; to = name_server }

abbrev query : Transfer Log
query = record {
  buf = 1 ∷ 2 ∷ [];
  off = 2;
  remaining = pos 0;
  num_actual = none;
  clock = 100;
  timedout = 0;
  code = RetCode.ok;
  sock = record aimed { listener = pollfd (pos 5) 4 4 };
  world = name_server ∷ [];
}

connects : connect log_net 101 zero_addr resolver [] ≡ some (RetCode.ok, aimed, [])
unfolding connect of_host c_string set_nonblocking by_pton
connects = refl

writes :
    write_data log_line 103 aimed (1 ∷ 2 ∷ []) (pos 2) default_num_actual []
    ≡ some (RetCode.ok, query)
unfolding write_data of_host
writes = refl

write_data-connect_example :
    Aimed log_net resolver aimed × (count : ℕ) × (query.world ≡ replicate count aimed.to ++ [])
unfolding of_host
write_data-connect_example =
    write_data-connect log_net log_line (λ w. w) 101 103 zero_addr resolver [] RetCode.ok aimed []
      (1 ∷ 2 ∷ []) (pos 2) none RetCode.ok query log-AddressContract refl (ground arith) connects
      writes
