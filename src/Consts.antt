-- ===== src/Consts.antt =====
-- src/ncconsts.h and src/ncenums.h: the constants and the return codes of the library.
use netclass.Common.{ℕ, ℤ, pos, minus_one}

abbrev pub max_hostname_len : ℕ
max_hostname_len = 256

abbrev pub socktype_tcpip : ℤ
socktype_tcpip = pos 0

abbrev pub socktype_udp : ℤ
socktype_udp = pos 1

abbrev pub nc_threaded : ℤ
nc_threaded = pos 0

abbrev pub nc_nonthreaded : ℤ
nc_nonthreaded = pos 1

abbrev pub nc_detached : ℕ
nc_detached = 2

abbrev pub nc_joined : ℕ
nc_joined = 4

abbrev pub nc_reuseaddr : ℕ
nc_reuseaddr = 8

abbrev pub max_dgram_buf_len : ℕ
max_dgram_buf_len = 512

pub data RetCode : Type 0 where
  failed ok timedout badargs moredata clientdisconnect notsupported : RetCode

-- The number that the enumeration gives to each code.
abbrev pub ret_code_value : RetCode → ℤ
ret_code_value RetCode.failed = minus_one
ret_code_value RetCode.ok = pos 0
ret_code_value RetCode.timedout = pos 1
ret_code_value RetCode.badargs = pos 2
ret_code_value RetCode.moredata = pos 3
ret_code_value RetCode.clientdisconnect = pos 4
ret_code_value RetCode.notsupported = pos 5
