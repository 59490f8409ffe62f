-- ===== src/Arch/Platforms.antt =====
-- src/ncarch.h: which systems and configurations the header accepts, what it makes of them, and which
-- of the two pairs of writeData and readData (src/ncsocket.cpp) is then compiled.
use netclass.Common.{
  ℕ, ◌≡◌, ◌≢◌, refl, ◌⊎◌, inl, inr, Bool, true, false, not, ◌||◌, ◌&&◌, if◌then◌else◌, Option, none,
  some, arith,
}
use netclass.Arch.Defs.{
  PosixHeaders, WinsockHeaders, Arch, DottedForm, by_pton, by_pton_macro, by_assignment, posix_arch,
  win32_arch,
}

-- Which one of these the compiler predefines: WIN32, __CYGWIN__, __OpenBSD__, __FreeBSD__, __APPLE__,
-- __linux__, __NetBSD__, or none of them.
pub data System : Type 0 where
  windows cygwin openbsd freebsd apple linux netbsd unknown : System

-- What configure has found.
pub record Configured : Type 0 where
  pub have_socket : Bool
  pub have_poll : Bool
  pub have_select : Bool
  pub have_inet_pton : Bool

abbrev pub is_win32 : System → Bool
is_win32 windows = true
is_win32 _ = false

-- The section for __linux__ or USE_LINUX: its first #error, its second, or its macros.
unfoldable pub linux_section :
    Configured → (recv_flag : ℕ) → DottedForm → PosixHeaders → Option Arch
linux_section c recv_flag dotted h =
    if not c.have_socket
    then none
    else if not c.have_poll && not c.have_select
    then none
    else some (posix_arch recv_flag dotted h)

-- The whole header; an #error is `none`.
unfoldable pub arch_of : System → Configured → PosixHeaders → WinsockHeaders → Option Arch
arch_of windows c p w = some (win32_arch w)
arch_of cygwin c p w =
    linux_section c 0 (if c.have_inet_pton then by_pton p.af_inet else by_pton_macro) p
arch_of openbsd c p w = linux_section c 0 (by_pton p.af_inet) p
arch_of freebsd c p w = linux_section c 0 (by_assignment p.inaddr_none) p
arch_of apple c p w = linux_section c 0 (by_assignment p.inaddr_none) p
arch_of linux c p w = linux_section c p.msg_nosignal (by_pton p.af_inet) p
arch_of netbsd c p w = none
arch_of unknown c p w = none

-- USE_SELECT_READ_WRITE, in the section for __linux__ or USE_LINUX.
unfoldable pub use_select : System → Configured → Bool
use_select windows c = false
use_select netbsd c = false
use_select unknown c = false
use_select _ c = not c.have_poll && c.have_select

-- The conditions round the two pairs of methods.
unfoldable pub select_build : System → Configured → Bool
select_build s c = is_win32 s || use_select s c

unfoldable pub poll_build : System → Configured → Bool
poll_build s c = not (is_win32 s) && c.have_poll && not (use_select s c)

-- The condition round the POSIX methods in src/ncmutex.cpp; the one round the others is WIN32.
unfoldable pub posix_mutex : System → Bool
posix_mutex linux = true
posix_mutex freebsd = true
posix_mutex openbsd = true
posix_mutex _ = false

-- The error numbers that a system gives different meanings are different.
pub record PosixNumbers (h : PosixHeaders) : Type 0 where
  pub ealready_epipe : h.ealready ≢ h.epipe
  pub ealready_econnreset : h.ealready ≢ h.econnreset
  pub einprogress_epipe : h.einprogress ≢ h.epipe
  pub einprogress_econnreset : h.einprogress ≢ h.econnreset
  pub eagain_epipe : h.eagain ≢ h.epipe
  pub eagain_econnreset : h.eagain ≢ h.econnreset

pub record WinsockNumbers (h : WinsockHeaders) : Type 0 where
  pub already_isconn : h.wsaealready ≢ h.wsaeisconn
  pub already_connreset : h.wsaealready ≢ h.wsaeconnreset
  pub already_shutdown : h.wsaealready ≢ h.wsaeshutdown
  pub wouldblock_isconn : h.wsaewouldblock ≢ h.wsaeisconn
  pub wouldblock_connreset : h.wsaewouldblock ≢ h.wsaeconnreset
  pub wouldblock_shutdown : h.wsaewouldblock ≢ h.wsaeshutdown
  pub inval_isconn : h.wsaeinval ≢ h.wsaeisconn
  pub inval_connreset : h.wsaeinval ≢ h.wsaeconnreset
  pub inval_shutdown : h.wsaeinval ≢ h.wsaeshutdown
  pub isconn_connreset : h.wsaeisconn ≢ h.wsaeconnreset
  pub isconn_shutdown : h.wsaeisconn ≢ h.wsaeshutdown

-- No error is of two of the kinds that the code tells apart.
pub record Apart (a : Arch) (e : ℕ) : Type 0 where
  pub reset_blocking : (a.socket_reset e && a.is_blocking_error e) ≡ false
  pub reset_connected : (a.socket_reset e && a.is_connected e) ≡ false
  pub connected_blocking : (a.is_connected e && a.is_blocking_error e) ≡ false

posix_arch-Apart :
    (recv_flag : ℕ) (dotted : DottedForm) (h : PosixHeaders) (e : ℕ)
    → PosixNumbers h
    → Apart (posix_arch recv_flag dotted h) e
posix_arch-Apart recv_flag dotted h e n = ground arith

win32_arch-Apart : (h : WinsockHeaders) (e : ℕ) → WinsockNumbers h → Apart (win32_arch h) e
win32_arch-Apart h e n = ground arith

-- What is known of a header that has been accepted.
pub record Portable (s : System) (c : Configured) (a : Arch) : Type 0 where
  pub one_build : poll_build s c ≡ not (select_build s c)
  pub mutexes :
      ((is_win32 s || posix_mutex s) ≡ true)
      ⊎ (((is_win32 s || posix_mutex s) ≡ false) × ((s ≡ cygwin) ⊎ (s ≡ apple)))
  pub apart : (e : ℕ) → Apart a e

linux_section-some :
    (c : Configured) (recv_flag : ℕ) (dotted : DottedForm) (h : PosixHeaders) (a : Arch)
    → linux_section c recv_flag dotted h ≡ some a
    → (a ≡ posix_arch recv_flag dotted h) × ((c.have_poll || c.have_select) ≡ true)
unfolding linux_section
linux_section-some c recv_flag dotted h a e = ground arith

-- On a system that uses the section for POSIX the two conditions exclude each other.
linux_section-Portable :
    (s : System) (c : Configured) (recv_flag : ℕ) (dotted : DottedForm) (h : PosixHeaders)
    (a : Arch)
    → is_win32 s ≡ false
    → use_select s c ≡ (not c.have_poll && c.have_select)
    → ((is_win32 s || posix_mutex s) ≡ true)
      ⊎ (((is_win32 s || posix_mutex s) ≡ false) × ((s ≡ cygwin) ⊎ (s ≡ apple)))
    → PosixNumbers h
    → linux_section c recv_flag dotted h ≡ some a
    → Portable s c a
unfolding select_build poll_build
linux_section-Portable s c recv_flag dotted h a posix uses mutexes n e =
    let (same, either) = linux_section-some c recv_flag dotted h a e in
    record {
      one_build = ground (arith, posix, uses, either);
      mutexes = mutexes;
      apart = λ k. rw same (posix_arch-Apart recv_flag dotted h k n);
    }

-- On every system and configuration that src/ncarch.h accepts, where the error numbers of the system
-- headers are different: exactly one of the two pairs of writeData and readData is compiled; the methods
-- of ncMutex are compiled too, except on Cygwin and on Apple's system, where they are missing; and no
-- error counts as two of a reset, an established connection and an operation that would block, so that
-- the order in which the code tests for them does not matter.
pub arch_of-Portable :
    (s : System) (c : Configured) (p : PosixHeaders) (w : WinsockHeaders) (a : Arch)
    → PosixNumbers p
    → WinsockNumbers w
    → arch_of s c p w ≡ some a
    → Portable s c a
unfolding arch_of use_select select_build poll_build posix_mutex
arch_of-Portable windows c p w a np nw e =
    let same : a ≡ win32_arch w = ground arith in
    record {
      one_build = ground arith;
      mutexes = inl refl;
      apart = λ k. rw same (win32_arch-Apart w k nw);
    }
arch_of-Portable cygwin c p w a np nw e =
    linux_section-Portable cygwin c 0 _ p a refl refl (inr (refl, inl refl)) np e
arch_of-Portable openbsd c p w a np nw e =
    linux_section-Portable openbsd c 0 _ p a refl refl (inl refl) np e
arch_of-Portable freebsd c p w a np nw e =
    linux_section-Portable freebsd c 0 _ p a refl refl (inl refl) np e
arch_of-Portable apple c p w a np nw e =
    linux_section-Portable apple c 0 _ p a refl refl (inr (refl, inr refl)) np e
arch_of-Portable linux c p w a np nw e =
    linux_section-Portable linux c p.msg_nosignal _ p a refl refl (inl refl) np e
arch_of-Portable netbsd c p w a np nw e = absurd (ground arith)
arch_of-Portable unknown c p w a np nw e = absurd (ground arith)
