-- ===== src/Socket/Poll/Kept.antt =====
-- The loop of the poll build keeps whatever its calls keep, of the object and the system.
use netclass.Common.{
  ℕ, zero, suc, ℤ, pos, negsuc, ◌≡◌, sym, subst, ◌∙◌, true, false, inl, inr, Option, some, arith,
  Bool-cases, has_bit, int_of_uint,
}
use netclass.Consts.{RetCode}
use netclass.Socket.State.{NcSocket, pollfd}
use netclass.Socket.Poll.Os.{PollOs}
use netclass.Socket.Poll.Loop.{
  Transfer, Direction, Round, return, next, goes_on, is_ok, checked, with_moved, on_error, on_count,
  on_moved, on_ready, on_poll, round, transfer,
}

module _ {W : Type 0} (os : PollOs W) (dir : Direction W) (buf_len : ℤ)
    (P : NcSocket → W → Type 0) where
  -- What is so of the object and the system stays so through each call.
  pub record CallsKeep : Type 0 where
    pub polls :
        (s : NcSocket) (w : W) (ms : ℤ)
        → P s w
        → let r = os.poll s.sockfd dir.event ms w in
          P (record s { listener = pollfd s.sockfd dir.event r.revents }) r.world
    pub moves :
        (t : Transfer W)
        → P t.sock t.world
        → P (record t.sock { to = (dir.move t).to }) (dir.move t).world
    pub shuts : (s : NcSocket) (fd : ℤ) (w : W) → P s w → P s (os.shutdown fd dir.how w)

  abbrev Keeps : Round W → Type 0
  Keeps (return code t) = P t.sock t.world
  Keeps (next t) = P t.sock t.world

  on_error-Keeps :
      (err : ℕ) (t : Transfer W)
      → CallsKeep
      → P t.sock t.world
      → Keeps (on_error os dir buf_len err t)
  unfolding on_error checked
  on_error-Keeps err t c h = elim (Bool-cases (os.arch.socket_reset err)) [
    | inl reset ↦ rw (reset, on_error) (c.shuts t.sock t.sock.sockfd t.world h)
    | inr other ↦ elim (Bool-cases (os.arch.is_blocking_error err)) [
      | inl blocks ↦ elim (Bool-cases (is_ok (checked buf_len t).code)) [
        | inl fine ↦ rw (other, blocks, fine, on_error) h
        | inr over ↦ rw (other, blocks, over, on_error) h
      ]
      | inr fatal ↦ rw (other, fatal, on_error) (c.shuts t.sock t.sock.sockfd t.world h)
    ]
  ]

  on_moved-Keeps :
      (n : ℤ) (t : Transfer W) → CallsKeep → P t.sock t.world → Keeps (on_moved os dir buf_len n t)
  unfolding on_moved on_count checked
  on_moved-Keeps (negsuc e) t c h = on_error-Keeps (os.last_error t.world) t c h
  on_moved-Keeps (pos n) t c h = h

  on_ready-Keeps :
      (revents : ℕ) (t : Transfer W)
      → CallsKeep
      → P t.sock t.world
      → Keeps (on_ready os dir buf_len revents t)
  unfolding on_ready
  on_ready-Keeps revents t c h = elim (Bool-cases (has_bit revents os.pollerr)) [
    | inl bad ↦ rw (bad, on_ready) h
    | inr fine ↦ elim (Bool-cases (has_bit revents dir.event)) [
      | inl ready ↦
          rw (fine, ready, on_ready)
            (on_moved-Keeps (dir.move t).count (with_moved (dir.move t) t) c (c.moves t h))
      | inr other ↦ rw (fine, other, on_ready) h
    ]
  ]

  on_poll-Keeps :
      (n : ℤ) (revents : ℕ) (t : Transfer W)
      → CallsKeep
      → P t.sock t.world
      → Keeps (on_poll os dir buf_len n revents t)
  unfolding on_poll checked
  on_poll-Keeps (negsuc zero) revents t c h = h
  on_poll-Keeps (pos zero) revents t c h = h
  on_poll-Keeps (pos (suc zero)) revents t c h = on_ready-Keeps revents t c h
  on_poll-Keeps (pos (suc (suc n))) revents t c h = h
  on_poll-Keeps (negsuc (suc n)) revents t c h = h

  round-Keeps : (t : Transfer W) → CallsKeep → P t.sock t.world → Keeps (round os dir buf_len t)
  unfolding round
  round-Keeps t c h = on_poll-Keeps _ _ _ c (c.polls t.sock t.world (int_of_uint t.sock.polltime) h)

  same_end :
      (c code : RetCode) (u t' : Transfer W)
      → ◌≡◌ {A = Option (RetCode × Transfer W)} (some (c, u)) (some (code, t'))
      → P u.sock u.world
      → P t'.sock t'.world
  same_end c code u t' e h =
      let same : u ≡ t' = ground arith in subst (λ v. P v.sock v.world) same h

  abbrev finish : ℕ → Round W → Option (RetCode × Transfer W)
  finish fuel r = elim r [ return c u ↦ some (c, u) | next u ↦ transfer os dir buf_len fuel u ]

  goes-finish :
      (fuel : ℕ) (t : Transfer W)
      → goes_on os dir buf_len t ≡ true
      → transfer os dir buf_len (suc fuel) t ≡ finish fuel (round os dir buf_len t)
  unfolding transfer
  goes-finish fuel t more = rw (more, transfer)

  stops-finish :
      (fuel : ℕ) (t : Transfer W)
      → goes_on os dir buf_len t ≡ false
      → transfer os dir buf_len (suc fuel) t ≡ some (t.code, t)
  unfolding transfer
  stops-finish fuel t over = rw (over, transfer)

  finish-Keeps :
      (fuel : ℕ) (r : Round W) (code : RetCode) (t' : Transfer W)
      → ((t : Transfer W)
          → P t.sock t.world
          → transfer os dir buf_len fuel t ≡ some (code, t')
          → P t'.sock t'.world)
      → Keeps r
      → finish fuel r ≡ some (code, t')
      → P t'.sock t'.world
  finish-Keeps fuel (return c u) code t' ih h e = same_end c code u t' e h
  finish-Keeps fuel (next u) code t' ih h e = ih u h e

  pub transfer-Keeps :
      (fuel : ℕ) (t : Transfer W) (code : RetCode) (t' : Transfer W)
      → CallsKeep
      → P t.sock t.world
      → transfer os dir buf_len fuel t ≡ some (code, t')
      → P t'.sock t'.world
  unfolding transfer
  transfer-Keeps zero t code t' c h e = absurd (ground arith)
  transfer-Keeps (suc fuel) t code t' c h e = elim (Bool-cases (goes_on os dir buf_len t)) [
    | inl more ↦
        finish-Keeps fuel (round os dir buf_len t) code t' (λ u. transfer-Keeps fuel u code t' c)
          (round-Keeps t c h) (sym (goes-finish fuel t more) ∙ e)
    | inr over ↦ same_end t.code code t t' (sym (stops-finish fuel t over) ∙ e) h
  ]
