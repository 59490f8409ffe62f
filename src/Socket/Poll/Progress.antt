-- ===== src/Socket/Poll/Progress.antt =====
-- The two directions keep the laws of the loop: what is on the wire, or in the buffer, after n bytes.
use netclass.Common.{
  ℕ, pos, negsuc, pos_part, eqb_ℤ, ◌+◌, ◌≤◌, ◌≡◌, ap, sym, subst, ◌∙◌, [], inl, inr, List, ◌++◌,
  length, take, drop, arith, Bool-cases, append_assoc, append-nil, length-take, take-take, take-add,
  drop-add, take-append_left, drop-append_left, length-append,
}
use netclass.Consts.{socktype_tcpip}
use netclass.Socket.State.{overwrite}
use netclass.Socket.Poll.Os.{PollOs, Sent, Received}
use netclass.Socket.Poll.Loop.{Transfer}
use netclass.Socket.Poll.Calls.{chunk, send_call, recv_call, writing, reading}
use netclass.Socket.Poll.Outcome.{Laws}
use netclass.Socket.Poll.Contracts.{SendsPrefix, Delivers, SendContract, RecvContract}

module _ {W : Type 0} (wire : W → List ℕ) (before buf : List ℕ) where
  -- After `n` bytes of `buf`: they are on the wire behind what was there, and the buffer is whole.
  pub record Written (n : ℕ) (buf' : List ℕ) (w : W) : Type 0 where
    pub on_wire : wire w ≡ before ++ take n buf
    pub same_buf : buf' ≡ buf

  Written-extend :
      (n k m : ℕ) (w : W) (r : Sent W) (buf' : List ℕ)
      → SendsPrefix wire (take m (drop n buf')) w r
      → r.result ≡ pos k
      → Written n buf' w
      → Written (n + k) buf' r.world
  Written-extend n k m w r buf' sends e v = record {
    on_wire =
        sends.takes k e
        ∙ ap (λ l. wire w ++ l)
            (take-take k m (drop n buf')
              (omega (arith, sends.count_le k e, length-take m (drop n buf'))))
        ∙ rw (v.on_wire, v.same_buf, take-add n k buf)
            (append_assoc before (take n buf) (take k (drop n buf)));
    same_buf = v.same_buf;
  }

  module _ (os : PollOs W) (c : SendContract os wire) where
    send_call-SendsPrefix :
        (t : Transfer W) → SendsPrefix wire (chunk os t) t.world (send_call os t)
    unfolding send_call
    send_call-SendsPrefix t = elim (Bool-cases (eqb_ℤ t.sock.socktype socktype_tcpip)) [
      | inl tcp ↦ rw tcp (c.send _ _ _ _)
      | inr udp ↦ rw udp (c.sendto _ _ _ _ _)
    ]

    -- Writing keeps `Written`.
    pub writing-Laws : Laws os (writing os) Written
    unfolding writing
    writing-Laws = record {
      poll_range = c.poll.range;
      poll_keeps = λ fd events ms n b w v. record {
        on_wire = c.poll.poll_keeps fd events ms w ∙ v.on_wire;
        same_buf = v.same_buf;
      };
      move_le = λ t k e. omega (
        arith,
        (send_call-SendsPrefix t).count_le k e,
        length-take (pos_part t.remaining) (drop t.off t.buf),
      );
      move_ok = λ t k e v.
          Written-extend t.off k (pos_part t.remaining) t.world (send_call os t) t.buf
            (send_call-SendsPrefix t) e v;
      move_error = λ t n e v. record {
        on_wire = (send_call-SendsPrefix t).refuses n e ∙ v.on_wire;
        same_buf = v.same_buf;
      };
      shutdown_keeps = λ fd how n b w v. record {
        on_wire = c.poll.shutdown_keeps fd how w ∙ v.on_wire;
        same_buf = v.same_buf;
      };
    }

-- The first `off` bytes stay, then come `bytes`, then what stood behind them.
module _ (buf : List ℕ) (n k : ℕ) (bytes : List ℕ) (len : length bytes ≡ k)
    (fits : n ≤ length buf) where
  abbrev tail_part : List ℕ
  tail_part = bytes ++ drop (n + length bytes) buf

  short : n ≡ length (take n buf)
  short = omega (arith, length-take n buf)

  take-overwrite : take (n + k) (overwrite buf n bytes) ≡ take n buf ++ bytes
  unfolding overwrite
  take-overwrite =
      take-add n k _
      ∙ rw
          (
            take-append_left n (take n buf) tail_part short,
            drop-append_left n (take n buf) tail_part short,
          )
          (ap (λ l. take n buf ++ l) (take-append_left k bytes _ (sym len)))

  drop-overwrite : drop (n + k) (overwrite buf n bytes) ≡ drop (n + k) buf
  unfolding overwrite
  drop-overwrite =
      drop-add n k _
      ∙ rw (drop-append_left n (take n buf) tail_part short)
          (drop-append_left k bytes _ (sym len) ∙ ap (λ j. drop (n + j) buf) len)

  length-overwrite : n + k ≤ length (overwrite buf n bytes)
  length-overwrite = omega (
    arith,
    length-take (n + k) (overwrite buf n bytes),
    ap length take-overwrite,
    length-append (take n buf) bytes,
    short,
    len,
  )

module _ {W : Type 0} (handed : W → List ℕ) (before buf : List ℕ) where
  -- After `n` bytes: they stand at the start of the buffer as they were handed over, and the rest of
  -- the buffer is as it was.
  pub record Stored (n : ℕ) (buf' : List ℕ) (w : W) : Type 0 where
    pub received : handed w ≡ before ++ take n buf'
    pub rest : drop n buf' ≡ drop n buf
    pub inside : n ≤ length buf'

  Stored-extend :
      (n k : ℕ) (bytes : List ℕ) (w w' : W) (buf' : List ℕ)
      → length bytes ≡ k
      → handed w' ≡ handed w ++ bytes
      → Stored n buf' w
      → Stored (n + k) (overwrite buf' n bytes) w'
  Stored-extend n k bytes w w' buf' len given v = record {
    received =
        given
        ∙ rw (v.received, take-overwrite buf' n k bytes len v.inside)
            (append_assoc before (take n buf') bytes);
    rest =
        drop-overwrite buf' n k bytes len v.inside
        ∙ drop-add n k buf'
        ∙ ap (drop k) v.rest
        ∙ sym (drop-add n k buf);
    inside = length-overwrite buf' n k bytes len v.inside;
  }

  module _ (os : PollOs W) (c : RecvContract os handed) where
    recv_call-Delivers :
        (t : Transfer W) → Delivers handed (pos_part t.remaining) t.world (recv_call os t)
    unfolding recv_call
    recv_call-Delivers t = elim (Bool-cases (eqb_ℤ t.sock.socktype socktype_tcpip)) [
      | inl tcp ↦ rw tcp (c.recv _ _ _ _)
      | inr udp ↦ rw udp (c.recvfrom _ _ _ _ _)
    ]

    recv_error-Stored :
        (t : Transfer W) (e : ℕ)
        → (recv_call os t).result ≡ negsuc e
        → Stored t.off t.buf t.world
        → Stored t.off (overwrite t.buf t.off (recv_call os t).bytes) (recv_call os t).world
    recv_error-Stored t e none v =
        subst (λ n. Stored n (overwrite t.buf t.off r.bytes) r.world) (omega arith)
          (Stored-extend t.off 0 r.bytes t.world r.world t.buf (ap length q.0)
            (q.1 ∙ sym (append-nil _) ∙ ap (λ l. handed t.world ++ l) (sym q.0)) v)
      where
        r : Received W
        r = recv_call os t

        q : (r.bytes ≡ []) × (handed r.world ≡ handed t.world)
        q = (recv_call-Delivers t).refuses e none

    -- Reading keeps `Stored`.
    pub reading-Laws : Laws os (reading os) Stored
    unfolding reading
    reading-Laws = record {
      poll_range = c.poll.range;
      poll_keeps = λ fd events ms n b w v. record {
        received = c.poll.poll_keeps fd events ms w ∙ v.received;
        rest = v.rest;
        inside = v.inside;
      };
      move_le = λ t k e. (recv_call-Delivers t).count_le k e;
      move_ok = λ t k e v.
          Stored-extend t.off k (recv_call os t).bytes t.world (recv_call os t).world t.buf
            ((recv_call-Delivers t).stores k e) ((recv_call-Delivers t).gives k e) v;
      move_error = λ t n e v. recv_error-Stored t n e v;
      shutdown_keeps = λ fd how n b w v. record {
        received = c.poll.shutdown_keeps fd how w ∙ v.received;
        rest = v.rest;
        inside = v.inside;
      };
    }
