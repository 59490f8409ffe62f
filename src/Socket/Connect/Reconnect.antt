-- ===== src/Socket/Connect/Reconnect.antt =====
-- src/ncsocket.cpp: `ncSocket::connect` on a socket that is connected already, and the descriptors that
-- stay open.
use netclass.Common.{
  ℕ, suc, ℤ, pos, ◌+◌, ◌/◌, ◌≤◌, ◌<◌, ◌≡◌, refl, sym, ap, ◌∙◌, false, List, [], ◌∷◌, ◌++◌, length,
  length-append, append_assoc, Option, none, some, arith, word_mod, ◌==◌,
}
use netclass.Consts.{RetCode}
use netclass.Socket.State.{NcSocket, SockAddrIn}
use netclass.Socket.Handle.{FileOs, destroy}
use netclass.Socket.Connect.Defs.{ConnectOs, connect_to, retarget}
use netclass.Socket.Connect.Ends.{connect-Returns}
use netclass.Socket.Connect.Opened.{OpenContract, Opened, connect-Opened}

-- A peer that connect(host,port,sockType) is called for, and what stands in the local of connect.
pub record Peer : Type 0 where
  pub host : List ℕ
  pub port : ℕ
  pub kind : ℤ
  pub stack : SockAddrIn
  pub valid : (port == 0) ≡ false

module _ {W : Type 0} (os : ConnectOs W) where
  -- One call of connect after the other, whatever they return.
  unfoldable pub connect_all : ℕ → List Peer → NcSocket → W → Option (NcSocket × W)
  connect_all fuel [] s w = some (s, w)
  connect_all fuel (p ∷ ps) s w =
      elim (connect_to os fuel p.stack s (some p.host) p.port p.kind w) [
        | none ↦ none
        | some (code, s', w') ↦ connect_all fuel ps s' w'
      ]

module _ {W : Type 0} (os : ConnectOs W) (files : FileOs W) (live : W → List ℤ) where
  module _ (c : OpenContract os files live) where
    -- The same of a call for a peer, on enough fuel.
    connect_to-Opened :
        (fuel : ℕ) (p : Peer) (s : NcSocket) (w : W)
        → s.timeout < word_mod
        → s.timeout / 100 + 1 ≤ fuel
        → (code : RetCode) × (s' : NcSocket) × (w' : W) × (connect_to os fuel p.stack s
              (some p.host)
              p.port
              p.kind
              w
            ≡ some (code, s', w'))
          × Opened os live s w s' w'
    unfolding connect_to retarget
    connect_to-Opened fuel p s w small enough =
        let s₀ = retarget s p.host p.port p.kind in
        let (code, s', w', e) = connect-Returns os fuel p.stack s₀ w small enough in
        let o = connect-Opened os files live c fuel p.stack s₀ w code s' w' e in
        (
          code,
          s',
          w',
          rw p.valid e,
          record {
            number = o.number;
            descriptor = o.descriptor;
            more = o.more;
            same_stream = o.same_stream;
            same_timeout = o.same_timeout;
          },
        )

    connect_all-live :
        (fuel : ℕ) (p : Peer) (ps : List Peer) (s : NcSocket) (w : W)
        → s.timeout < word_mod
        → s.timeout / 100 + 1 ≤ fuel
        → s.stdiofd ≡ none
        → (s' : NcSocket) × (w' : W) × (n : ℕ) × (lost : List ℤ) × (connect_all os fuel (p ∷ ps) s w
            ≡ some (s', w'))
          × (s'.stdiofd ≡ none)
          × (s'.sockfd ≡ pos (suc n))
          × (live w' ≡ pos (suc n) ∷ (lost ++ live w))
          × (length lost ≡ length ps)
    unfolding connect_all
    connect_all-live fuel p [] s w small enough bare =
        let (code, s', w', e, o) = connect_to-Opened fuel p s w small enough in
        (
          s',
          w',
          o.number,
          [],
          rw (e, connect_all) refl,
          o.same_stream ∙ bare,
          o.descriptor,
          o.more,
          refl,
        )
    connect_all-live fuel p (q ∷ ps) s w small enough bare =
        let (code, s₁, w₁, e, o) = connect_to-Opened fuel p s w small enough in
        let (s', w', n, lost, e', bare', fd, top, count) =
          connect_all-live fuel q ps s₁ w₁ (omega (arith, small, o.same_timeout))
            (rw o.same_timeout enough) (o.same_stream ∙ bare) in
        let one = pos (suc o.number) ∷ [] in
        (
          s',
          w',
          n,
          lost ++ one,
          rw (e, connect_all) e',
          bare',
          fd,
          top
              ∙ ap (λ k. pos (suc n) ∷ (lost ++ k)) o.more
              ∙ ap (λ k. pos (suc n) ∷ k) (sym (append_assoc lost one (live w))),
          omega (arith, length-append lost one, count),
        )

    -- A socket that has no stream and is connected k + 1 times, and then destroyed, when no call of
    -- socket fails: each of the calls returns, whatever the system answers, and k descriptors, all but
    -- the last, stay open.
    pub connect_all-Leaks :
        (fuel : ℕ) (p : Peer) (ps : List Peer) (s : NcSocket) (w : W)
        → s.timeout < word_mod
        → s.timeout / 100 + 1 ≤ fuel
        → s.stdiofd ≡ none
        → (s' : NcSocket) × (w' : W) × (lost : List ℤ) × (connect_all os fuel (p ∷ ps) s w
            ≡ some (s', w'))
          × (live (destroy files s' w').1 ≡ lost ++ live w)
          × (length lost ≡ length ps)
    unfolding destroy
    connect_all-Leaks fuel p ps s w small enough bare =
        let (s', w', n, lost, e, bare', fd, top, count) =
          connect_all-live fuel p ps s w small enough bare in
        let own : live w' ≡ s'.sockfd ∷ (lost ++ live w) =
          top ∙ ap (λ k. k ∷ (lost ++ live w)) (sym fd) in
        (
          s',
          w',
          lost,
          e,
          ground (arith, bare', fd, c.closes s'.sockfd w' (lost ++ live w) own),
          count,
        )
