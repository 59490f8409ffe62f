-- ===== src/Datagram.antt =====
-- src/udpdata.h: `udpData`, a datagram with the address of its sender.
use netclass.Common.{
  ℕ, ℤ, pos, negsuc, ◌+◌, ◌≡◌, refl, ◌∙◌, List, take, drop, min, length, Option, none, some, arith,
  ltb_ℤ, if◌then◌else◌, length-take, length-drop, length-append, sym, ap, take-append_left, ◌≤◌,
}
use netclass.Consts.{max_dgram_buf_len}
use netclass.Socket.State.{SockAddrIn, overwrite}

pub record UdpData : Type 0 where
  pub sockfd : ℤ
  pub length : ℤ
  pub clientaddr : SockAddrIn
  pub contents : List ℕ

-- MIN(len,MAX_DGRAM_BUF_LEN).
abbrev pub cut_length : ℤ → ℤ
cut_length len = if ltb_ℤ len (pos max_dgram_buf_len) then len else pos max_dgram_buf_len

-- memcpy of `len` bytes of `buf` to the start of `old`. The size is unsigned: one that is negative as
-- an int goes far beyond both arrays, and what it does is not defined.
abbrev pub copy_bytes : List ℕ → ℤ → List ℕ → Option (List ℕ)
copy_bytes old (pos n) buf = some (overwrite old 0 (take n buf))
copy_bytes old (negsuc n) buf = none

-- The constructor; `stack` is what stands in m_data, and `none` says that it is undefined.
unfoldable pub new_datagram : List ℕ → ℤ → SockAddrIn → List ℕ → ℤ → Option UdpData
new_datagram stack sockfd addr buf len = elim (copy_bytes stack (cut_length len) buf) [
  | none ↦ none
  | some bytes ↦
      some
        (record { sockfd = sockfd; length = cut_length len; clientaddr = addr; contents = bytes })
]

-- getClientAddr, getSockfd, getLength and getData.
unfoldable pub get_client_addr : UdpData → SockAddrIn
get_client_addr d = d.clientaddr

unfoldable pub get_descriptor : UdpData → ℤ
get_descriptor d = d.sockfd

unfoldable pub get_length : UdpData → ℤ
get_length d = d.length

unfoldable pub get_data : UdpData → List ℕ
get_data d = d.contents

pub take-overwrite_start :
    (k : ℕ) (buf bytes : List ℕ) → k ≡ length bytes → take k (overwrite buf 0 bytes) ≡ bytes
unfolding overwrite
take-overwrite_start k buf bytes e = take-append_left k bytes _ e

length-overwrite_start :
    (buf bytes : List ℕ) → length bytes ≤ length buf → length (overwrite buf 0 bytes) ≡ length buf
unfolding overwrite
length-overwrite_start buf bytes h =
    length-append bytes (drop (0 + length bytes) buf)
    ∙ omega (arith, length-drop (0 + length bytes) buf)

cut_length-min : (n : ℕ) → cut_length (pos n) ≡ pos (min n max_dgram_buf_len)
cut_length-min n = ground arith

-- What the constructor makes of a length that is not negative.
abbrev pub made_of : List ℕ → ℤ → SockAddrIn → List ℕ → ℕ → UdpData
made_of stack sockfd addr buf n = record {
  sockfd = sockfd;
  length = pos (min n max_dgram_buf_len);
  clientaddr = addr;
  contents = overwrite stack 0 (take (min n max_dgram_buf_len) buf);
}

pub new_datagram-some :
    (stack : List ℕ) (sockfd : ℤ) (addr : SockAddrIn) (buf : List ℕ) (n : ℕ)
    → new_datagram stack sockfd addr buf (pos n) ≡ some (made_of stack sockfd addr buf n)
unfolding new_datagram
new_datagram-some stack sockfd addr buf n =
    rw (cut_length-min n, new_datagram)
      (ap (λ l. some (record (made_of stack sockfd addr buf n) { length = l })) (cut_length-min n))

pub new_datagram-none :
    (stack : List ℕ) (sockfd : ℤ) (addr : SockAddrIn) (buf : List ℕ) (n : ℕ)
    → new_datagram stack sockfd addr buf (negsuc n) ≡ none
unfolding new_datagram
new_datagram-none stack sockfd addr buf n =
    let negative : cut_length (negsuc n) ≡ negsuc n = ground arith in
    rw (negative, new_datagram) refl

-- From a buffer of 512 bytes, a datagram of a length that recvfrom reports without an error is made
-- with its length cut to 512, that many bytes of the buffer at its start, and the sender's address; and
-- 512 bytes of data are 512 bytes afterwards.
pub new_datagram_lem :
    (stack : List ℕ) (sockfd : ℤ) (addr : SockAddrIn) (buf : List ℕ) (n : ℕ)
    → length buf ≡ max_dgram_buf_len
    → length stack ≡ max_dgram_buf_len
    → let kept = min n max_dgram_buf_len in
      (d : UdpData) × (new_datagram stack sockfd addr buf (pos n) ≡ some d)
      × (get_length d ≡ pos kept)
      × (get_client_addr d ≡ addr)
      × (get_descriptor d ≡ sockfd)
      × (take kept (get_data d) ≡ take kept buf)
      × (length (get_data d) ≡ max_dgram_buf_len)
unfolding get_length get_client_addr get_descriptor get_data
new_datagram_lem stack sockfd addr buf n full room =
    let kept = min n max_dgram_buf_len in
    let cut = take kept buf in
    let size : length cut ≡ kept = omega (arith, length-take kept buf) in
    (
      made_of stack sockfd addr buf n,
      new_datagram-some stack sockfd addr buf n,
      refl,
      refl,
      refl,
      take-overwrite_start kept stack cut (sym size),
      length-overwrite_start stack cut (omega arith) ∙ room,
    )
