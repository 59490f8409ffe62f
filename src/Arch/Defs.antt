-- ===== src/Arch/Defs.antt =====
-- src/ncarch.h: what the macros of the header make of each platform's error numbers and constants.
use netclass.Common.{
  ℕ, ℤ, pos, ltb_ℤ, Bool, false, not, ◌||◌, ◌==◌, if◌then◌else◌, List, bit_or, uint_of_int,
}

-- The numbers that the system headers of the POSIX build define.
pub record PosixHeaders : Type 0 where
  pub af_inet : ℕ
  pub sock_stream : ℕ
  pub sock_dgram : ℕ
  pub msg_nosignal : ℕ
  pub ealready : ℕ
  pub einprogress : ℕ
  pub eagain : ℕ
  pub epipe : ℕ
  pub econnreset : ℕ
  pub eaddrinuse : ℕ
  pub inaddr_none : ℕ
  pub o_nonblock : ℕ

-- Those that the headers of WIN32 define.
pub record WinsockHeaders : Type 0 where
  pub af_inet : ℕ
  pub sock_stream : ℕ
  pub sock_dgram : ℕ
  pub sd_send : ℕ
  pub sd_receive : ℕ
  pub wsaealready : ℕ
  pub wsaewouldblock : ℕ
  pub wsaeinval : ℕ
  pub wsaeisconn : ℕ
  pub wsaeconnreset : ℕ
  pub wsaeshutdown : ℕ
  pub wsaeaddrinuse : ℕ
  pub inaddr_none : ℕ

-- The calls that read the dotted form of an address, which is a C string. inet_pton writes through a
-- pointer, or leaves what stands there.
pub record InetCalls : Type 0 where
  pub inet_pton : (family : ℕ) (host : List ℕ) (old : ℕ) → ℤ × ℕ
  pub inet_addr : (host : List ℕ) → ℕ

-- The value of ncValidInetAddr(ncGetInetAddr(host,addrPtr)), and what *addrPtr is then.
abbrev pub DottedForm : Type 0
DottedForm = InetCalls → List ℕ → ℕ → Bool × ℕ

-- (inet_pton(AF_INET,host,addrPtr) > 0).
unfoldable pub by_pton : (af_inet : ℕ) → DottedForm
by_pton af_inet calls host old =
    let (result, addr) = calls.inet_pton af_inet host old in (ltb_ℤ (pos 0) result, addr)

-- The same where inet_pton(a,b,c) is a macro for inet_addr(b).
unfoldable pub by_pton_macro : DottedForm
by_pton_macro calls host old = (not (calls.inet_addr host == 0), old)

-- (*addrPtr = inet_addr(host) != INADDR_NONE), in which the comparison binds more tightly.
unfoldable pub by_assignment : (inaddr_none : ℕ) → DottedForm
by_assignment inaddr_none calls host old =
    let valid = not (calls.inet_addr host == inaddr_none) in (valid, if valid then 1 else 0)

-- The calls that make a descriptor non-blocking: fcntl with F_GETFD and F_SETFL, ioctlsocket with
-- FIONBIO and a pointer.
module _ (W : Type 0) where
  pub record ModeCalls : Type 0 where
    pub get_fd : (fd : ℤ) → W → ℤ × W
    pub set_fl : (fd : ℤ) (flags : ℕ) → W → W
    pub set_fionbio : (fd : ℤ) (pointer : ℕ) → W → W

-- How ncSetSocketNonBlocking is defined.
pub data ModeForm : Type 0 where
  by_fcntl : (o_nonblock : ℕ) → ModeForm
  by_ioctlsocket : ModeForm

module _ {W : Type 0} (calls : ModeCalls W) where
  -- ncSetSocketNonBlocking(a), where m_sockfd is `a`, as in each call of it.
  unfoldable pub set_nonblocking : ModeForm → (fd : ℤ) → W → W
  set_nonblocking (by_fcntl o_nonblock) fd w =
      let (flags, w') = calls.get_fd fd w in
      calls.set_fl fd (bit_or (uint_of_int flags) o_nonblock) w'
  set_nonblocking by_ioctlsocket fd w = calls.set_fionbio fd 1 w

-- What the portable code takes from the header.
pub record Arch : Type 0 where
  pub af_inet : ℕ
  pub sock_stream : ℕ
  pub sock_dgram : ℕ
  pub recv_flag : ℕ
  pub sd_send : ℕ
  pub sd_read : ℕ
  pub is_blocking_error : ℕ → Bool
  pub is_connected : ℕ → Bool
  pub socket_reset : ℕ → Bool
  pub addr_in_use : ℕ → Bool
  pub valid_inet_addr : DottedForm
  pub mode_form : ModeForm

-- The section for POSIX, with what a section before it may have defined.
abbrev pub posix_arch : (recv_flag : ℕ) → DottedForm → PosixHeaders → Arch
posix_arch recv_flag dotted h = record {
  af_inet = h.af_inet;
  sock_stream = h.sock_stream;
  sock_dgram = h.sock_dgram;
  recv_flag = recv_flag;
  sd_send = 1;
  sd_read = 0;
  is_blocking_error = λ a. a == h.ealready || a == h.einprogress || a == h.eagain;
  is_connected = λ a. false;
  socket_reset = λ a. a == h.epipe || a == h.econnreset;
  addr_in_use = λ a. a == h.eaddrinuse;
  valid_inet_addr = dotted;
  mode_form = by_fcntl h.o_nonblock;
}

-- GNU/Linux.
abbrev pub linux_arch : PosixHeaders → Arch
linux_arch h = posix_arch h.msg_nosignal (by_pton h.af_inet) h

-- MS Windows.
abbrev pub win32_arch : WinsockHeaders → Arch
win32_arch h = record {
  af_inet = h.af_inet;
  sock_stream = h.sock_stream;
  sock_dgram = h.sock_dgram;
  recv_flag = 0;
  sd_send = h.sd_send;
  sd_read = h.sd_receive;
  is_blocking_error = λ a. a == h.wsaealready || a == h.wsaewouldblock || a == h.wsaeinval;
  is_connected = λ a. a == h.wsaeisconn;
  socket_reset = λ a. a == h.wsaeconnreset || a == h.wsaeshutdown;
  addr_in_use = λ a. a == h.wsaeaddrinuse;
  valid_inet_addr = by_assignment h.inaddr_none;
  mode_form = by_ioctlsocket;
}
