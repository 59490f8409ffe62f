-- ===== src/Socket/State.antt =====
-- src/ncsocket.h and src/ncsocket.cpp: the fields of `ncSocket`, its constructors and its setters.
use netclass.Common.{
  ℕ, ℤ, pos, minus_one, ◌+◌, ◌-◌, ◌%◌, ◌^◌, min, List, ◌++◌, Option, none, length, take, drop,
  replicate, uint_of_int,
}
use netclass.Consts.{max_hostname_len, socktype_udp}

-- struct sockaddr_in; the port and the address are in network byte order.
pub record SockAddrIn : Type 0 where
  pub sin_family : ℕ
  pub sin_port : ℕ
  pub sin_addr : ℕ
  pub sin_zero : List ℕ

-- `ncPollObject`: struct pollfd where there is poll, else fd_set as the descriptors in it.
pub data PollObject : Type 0 where
  pollfd : (fd : ℤ) (events revents : ℕ) → PollObject
  fd_set : List ℤ → PollObject

-- The default arguments: sockType of the constructor and of connect, numActualBytes of writeData and
-- readData.
abbrev pub default_socktype : ℤ
default_socktype = socktype_udp

abbrev pub default_num_actual : Option ℤ
default_num_actual = none

-- The private members, without the prefix m_. A FILE pointer is `none` if null.
pub record NcSocket : Type 0 where
  pub sockfd : ℤ
  pub listener : PollObject
  pub stdiofd : Option ℕ
  pub to : SockAddrIn
  pub ipaddr : ℕ
  pub socktype : ℤ
  pub timeout : ℕ
  pub polltime : ℕ
  pub port : ℕ
  pub hostname : List ℕ

abbrev pub zero_addr : SockAddrIn
zero_addr = record { sin_family = 0; sin_port = 0; sin_addr = 0; sin_zero = replicate 8 0 }

-- memcpy of `bytes` to the place `off` of a buffer.
unfoldable pub overwrite : List ℕ → ℕ → List ℕ → List ℕ
overwrite buf off bytes = take off buf ++ (bytes ++ drop (off + length bytes) buf)

-- memset of the host name to zero, then memcpy of at most max_hostname_len - 1 bytes of `host`.
unfoldable pub copy_hostname : List ℕ → List ℕ
unfolding overwrite
copy_hostname host =
    overwrite (replicate max_hostname_len 0) 0
      (take (min (length host) (max_hostname_len - 1)) host)

-- The members as ncSocket(int sockfd) sets them; `zeroed` is the listener after memset.
unfoldable pub of_descriptor : PollObject → ℤ → NcSocket
of_descriptor zeroed sockfd = record {
  sockfd = sockfd;
  listener = zeroed;
  stdiofd = none;
  to = zero_addr;
  ipaddr = 0;
  socktype = pos 0;
  timeout = 10000;
  polltime = 100;
  port = 0;
  hostname = replicate max_hostname_len 0;
}

-- ncSocket().
unfoldable pub default_socket : PollObject → NcSocket
default_socket zeroed = record {
  sockfd = minus_one;
  listener = zeroed;
  stdiofd = none;
  to = zero_addr;
  ipaddr = 0;
  socktype = pos 0;
  timeout = 10000;
  polltime = 100;
  port = 0;
  hostname = replicate max_hostname_len 0;
}

-- ncSocket(char *host, unsigned short port, int sockType).
unfoldable pub of_host : PollObject → List ℕ → ℕ → ℤ → NcSocket
unfolding copy_hostname
of_host zeroed host port sock_type = record {
  sockfd = pos 0;
  listener = zeroed;
  stdiofd = none;
  to = zero_addr;
  ipaddr = 0;
  socktype = sock_type;
  timeout = 10000;
  polltime = 100;
  port = port % 2 ^ 16;
  hostname = copy_hostname host;
}

unfoldable pub set_poll_time : NcSocket → ℤ → NcSocket
unfolding uint_of_int
set_poll_time s millisecs = record s { polltime = uint_of_int millisecs }

unfoldable pub set_timeout : NcSocket → ℤ → NcSocket
unfolding uint_of_int
set_timeout s millisecs = record s { timeout = uint_of_int millisecs }

unfoldable pub get_ip_addr : NcSocket → ℕ
get_ip_addr s = s.ipaddr

unfoldable pub set_ip_addr : NcSocket → ℕ → NcSocket
set_ip_addr s ipaddr = record s { ipaddr = ipaddr }

unfoldable pub get_sockfd : NcSocket → ℤ
get_sockfd s = s.sockfd
