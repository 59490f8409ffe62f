-- ===== src/Examples/ArchRuns.antt =====
-- The macros of src/ncarch.h on the numbers of GNU/Linux and of Winsock.
use netclass.Common.{ℕ, ℤ, pos, ◌≡◌, refl, none, ◌+◌, word_mod, ◌%◌, true, some, arith, [], ◌∷◌}
use netclass.Consts.{RetCode, socktype_tcpip}
use netclass.Arch.Defs.{WinsockHeaders, ModeCalls, Arch, posix_arch, by_assignment, set_nonblocking}
use netclass.Arch.Platforms.{
  Configured, apple, arch_of, linux_section, PosixNumbers, WinsockNumbers, Portable,
  arch_of-Portable,
}
use netclass.Socket.State.{NcSocket, of_host, pollfd, zero_addr}
use netclass.Socket.Connect.Defs.{ConnectOs, connect, c_string}
use netclass.Socket.Connect.Dotted.{compared, connect-Reads}
use netclass.Examples.Device.{headers, quiet_modes}

headers-PosixNumbers : PosixNumbers headers
headers-PosixNumbers = record {
  ealready_epipe = ground arith;
  ealready_econnreset = ground arith;
  einprogress_epipe = ground arith;
  einprogress_econnreset = ground arith;
  eagain_epipe = ground arith;
  eagain_econnreset = ground arith;
}

abbrev winsock : WinsockHeaders
winsock = record {
  af_inet = 2;
  sock_stream = 1;
  sock_dgram = 2;
  sd_send = 1;
  sd_receive = 0;
  wsaealready = 10037;
  wsaewouldblock = 10035;
  wsaeinval = 10022;
  wsaeisconn = 10056;
  wsaeconnreset = 10054;
  wsaeshutdown = 10058;
  wsaeaddrinuse = 10048;
  inaddr_none = 0xffffffff;
}

winsock-WinsockNumbers : WinsockNumbers winsock
winsock-WinsockNumbers = record {
  already_isconn = ground arith;
  already_connreset = ground arith;
  already_shutdown = ground arith;
  wouldblock_isconn = ground arith;
  wouldblock_connreset = ground arith;
  wouldblock_shutdown = ground arith;
  inval_isconn = ground arith;
  inval_connreset = ground arith;
  inval_shutdown = ground arith;
  isconn_connreset = ground arith;
  isconn_shutdown = ground arith;
}

abbrev configured : Configured
configured = record {
  have_socket = true;
  have_poll = true;
  have_select = true;
  have_inet_pton = true;
}

abbrev mac : Arch
mac = posix_arch 0 (by_assignment 0xffffffff) headers

arch_of-Portable_example : Portable apple configured mac
unfolding arch_of linux_section
arch_of-Portable_example =
    arch_of-Portable apple configured headers winsock mac headers-PosixNumbers
      winsock-WinsockNumbers refl

-- The flags of the only descriptor, and the status flags of its file.
pub record Modes : Type 0 where
  pub descriptor : ℕ
  pub status : ℕ

abbrev modes : ModeCalls Modes
modes = record {
  get_fd = λ fd w. (pos w.descriptor, w);
  set_fl = λ fd flags w. record w { status = flags };
  set_fionbio = λ fd pointer w. w;
}

abbrev descriptor_flags : ℤ → Modes → ℕ
descriptor_flags fd w = w.descriptor % word_mod

abbrev status_flags : ℤ → Modes → ℕ
status_flags fd w = w.status

-- A network on which every address answers, and inet_addr reads 127.0.0.1.
abbrev mac_os : ConnectOs ℕ
mac_os = record {
  arch = mac;
  htons = λ p. p;
  socket = λ d t p w. (pos 5, w);
  inet = record {
    inet_pton = λ family host old. (pos 1, 0x0100007f);
    inet_addr = λ host. 0x0100007f;
  };
  get_host_by_name = λ host w. (none, w);
  modes = quiet_modes;
  connect = λ fd a w. (pos 0, w);
  last_error = λ w. 0;
  sleep = λ ms w. w + ms;
}

abbrev local : NcSocket
local = of_host (pollfd (pos 0) 0 0) (49 ∷ 50 ∷ 55 ∷ []) 80 socktype_tcpip

abbrev reached : NcSocket
reached = record local { sockfd = pos 5; ipaddr = 1 }

mac_connects : connect mac_os 1 zero_addr local 0 ≡ some (RetCode.ok, reached, 0)
unfolding connect of_host c_string set_nonblocking by_assignment
mac_connects = refl

connect-Reads_example : reached.ipaddr ≡ 1
connect-Reads_example =
    connect-Reads mac_os 1 zero_addr local 0 1 RetCode.ok reached 0
      (compared 0xffffffff (ground arith)) refl mac_connects
