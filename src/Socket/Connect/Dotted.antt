-- ===== src/Socket/Connect/Dotted.antt =====
-- src/ncsocket.cpp: the address that `ncSocket::connect` uses for a host given in dotted form, under
-- the macros of src/ncarch.h.
use netclass.Common.{ℕ, pos, ◌≡◌, ◌≢◌, refl, sym, ap, ◌∙◌, true, false, List, some, arith, eqb_ℤ}
use netclass.Consts.{RetCode}
use netclass.Arch.Defs.{InetCalls, DottedForm, by_pton, by_pton_macro, by_assignment}
use netclass.Socket.State.{NcSocket, SockAddrIn}
use netclass.Socket.Connect.Defs.{ConnectOs, c_string, address_head, resolve, connect}
use netclass.Socket.Connect.Paths.{opened, fresh, answer, aimed, connect-found, start_attempts-kept}

-- The address that each form of the macros makes of a host that it finds valid.
pub data Reads (calls : InetCalls) (host : List ℕ) : DottedForm → ℕ → Type 0 where
  written :
      (af_inet addr : ℕ)
      → calls.inet_pton af_inet host 0 ≡ (pos 1, addr)
      → Reads calls host (by_pton af_inet) addr
  dropped : calls.inet_addr host ≢ 0 → Reads calls host by_pton_macro 0
  compared :
      (inaddr_none : ℕ)
      → calls.inet_addr host ≢ inaddr_none
      → Reads calls host (by_assignment inaddr_none) 1

Reads-valid :
    (calls : InetCalls) (host : List ℕ) {form : DottedForm} {addr : ℕ}
    → Reads calls host form addr
    → form calls host 0 ≡ (true, addr)
unfolding by_pton by_pton_macro by_assignment
Reads-valid calls host (written f a e) = rw e refl
Reads-valid calls host (dropped ne) = ground arith
Reads-valid calls host (compared none_addr ne) = ground arith

module _ {W : Type 0} (os : ConnectOs W) where
  resolve-valid :
      (s : NcSocket) (a : SockAddrIn) (w : W) (addr : ℕ)
      → a.sin_addr ≡ 0
      → os.arch.valid_inet_addr os.inet (c_string s.hostname) 0 ≡ (true, addr)
      → ((resolve os s a w).found ≡ true) × ((resolve os s a w).servaddr.sin_addr ≡ addr)
  unfolding resolve
  resolve-valid s a w addr zeroed e =
      let valid : os.arch.valid_inet_addr os.inet (c_string s.hostname) a.sin_addr ≡ (true, addr) =
        ap (os.arch.valid_inet_addr os.inet (c_string s.hostname)) zeroed ∙ e in
      rw (valid, resolve) (refl, refl)

  -- The address that connect uses for a host in dotted form, when socket has not returned 0: what
  -- inet_pton writes; or 0, where inet_pton is a macro for inet_addr; or 1, where the result of
  -- inet_addr is compared before it is assigned, which is so on WIN32, FreeBSD and Apple's systems.
  pub connect-Reads :
      (fuel : ℕ) (stack : SockAddrIn) (s : NcSocket) (w : W) (addr : ℕ) (code : RetCode)
      (s' : NcSocket) (w' : W)
      → Reads os.inet (c_string s.hostname) os.arch.valid_inet_addr addr
      → eqb_ℤ (opened os s w).0 (pos 0) ≡ false
      → connect os fuel stack s w ≡ some (code, s', w')
      → s'.ipaddr ≡ addr
  unfolding address_head
  connect-Reads fuel stack s w addr code s' w' r good e =
      let s₁ = fresh os stack s w in
      let (found, same) =
        resolve-valid s₁ (address_head os s₁ stack) (opened os s w).1 addr refl
          (Reads-valid os.inet (c_string s.hostname) r) in
      ap (λ k. k.ipaddr)
        (start_attempts-kept os fuel (aimed os stack s w) (answer os stack s w).servaddr
          (answer os stack s w).world code s' w'
          (sym (connect-found os stack s w fuel good found) ∙ e))
      ∙ same
