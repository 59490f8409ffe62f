-- ===== src/Socket/Poll/Steady.antt =====
-- The loop of the poll build on a line that moves the same number of bytes in every round.
use netclass.Common.{
  ℕ, zero, suc, ℤ, pos, pos_part, word_mod, ◌+◌, ◌-◌, ◌*◌, ◌%◌, ◌≤◌, ◌<◌, ◌≡◌, refl, ap, subst, ◌∙◌,
  ◌⊎◌, inr, leb, true, false, List, Option, none, some, arith, has_bit, int_of_uint, ◌==◌,
  if◌then◌else◌,
}
use netclass.Consts.{RetCode}
use netclass.Socket.Timeout.{timeout_code}
use netclass.Socket.Poll.Os.{PollOs}
use netclass.Socket.Poll.Loop.{
  Transfer, Direction, next, goes_on, round, checked, have_all_data, transfer, advanced,
  with_polled, with_moved, on_poll,
}
use netclass.Socket.Poll.Outcome.{actual}

-- The code of a call that its count of rounds ends after `moved` of `n` bytes.
unfoldable pub code_after : Option ℤ → (moved n : ℕ) → RetCode
code_after none moved n = RetCode.timedout
code_after (some _) moved n = if moved == n then RetCode.ok else RetCode.moredata

actual-code :
    (num : Option ℤ) (a n : ℕ)
    → 0 < a
    → timeout_code (have_all_data (pos n) (actual num a)) ≡ code_after num a n
unfolding code_after have_all_data timeout_code
actual-code none a n some_bytes = refl
actual-code (some _) a n some_bytes = ground arith

module _ {W : Type 0} (os : PollOs W) (dir : Direction W) (n : ℕ) (num : Option ℤ)
    (limit poll k : ℕ) (whole : List ℕ → Type 0) where
  -- The descriptor is always ready, and `k` bytes move when so many are left.
  pub record IsSteady : Type 0 where
    pub ready : (fd ms : ℤ) (w : W) → (os.poll fd dir.event ms w).result ≡ pos 1
    pub no_error :
        (fd ms : ℤ) (w : W) → has_bit (os.poll fd dir.event ms w).revents os.pollerr ≡ false
    pub event : (fd ms : ℤ) (w : W) → has_bit (os.poll fd dir.event ms w).revents dir.event ≡ true
    pub takes :
        (t : Transfer W)
        → whole t.buf
        → k ≤ pos_part t.remaining
        → t.off + pos_part t.remaining ≡ n
        → ((dir.move t).count ≡ pos k) × whole (dir.move t).buf

  -- `a` bytes have moved and the clock says `c`.
  pub record Moving (a c : ℕ) (t : Transfer W) : Type 0 where
    pub rest : ℕ
    pub left : t.remaining ≡ pos rest
    pub sum : a + rest ≡ n
    pub moved : t.off ≡ a
    pub counted : t.num_actual ≡ actual num a
    pub untimed : t.timedout ≡ 0
    pub time : t.clock ≡ c
    pub limit_kept : t.sock.timeout ≡ limit
    pub poll_kept : t.sock.polltime ≡ poll
    pub good : whole t.buf

  -- The state after poll, after the transfer, and after the counting of a round.
  abbrev polled : Transfer W → Transfer W
  polled t =
      with_polled dir.event (os.poll t.sock.sockfd dir.event (int_of_uint t.sock.polltime) t.world)
        t

  abbrev after : Transfer W → Transfer W
  after t = advanced k (with_moved (dir.move (polled t)) (polled t))

  Moving-round :
      (a c : ℕ) (t : Transfer W)
      → IsSteady
      → k + a ≤ n
      → Moving a c t
      → (round os dir (pos n) t ≡ next (checked (pos n) (after t))) × Moving (a + k) c (after t)
  unfolding round
  Moving-round a c t s room m =
      let left : pos_part t.remaining ≡ m.rest = ap pos_part m.left in
      let (count, whole') =
        s.takes (polled t) m.good (omega (arith, left, m.sum))
          (omega (arith, left, m.sum, m.moved)) in
      (
        rw (
          s.ready t.sock.sockfd (int_of_uint t.sock.polltime) t.world,
          on_poll,
          s.no_error t.sock.sockfd (int_of_uint t.sock.polltime) t.world,
          s.event t.sock.sockfd (int_of_uint t.sock.polltime) t.world,
          count,
        ),
        record {
          rest = m.rest - k;
          left = ground (arith, m.left, m.sum);
          sum = omega (arith, m.sum);
          moved = omega (arith, m.moved);
          counted = ground (arith, m.counted);
          untimed = m.untimed;
          time = m.time;
          limit_kept = m.limit_kept;
          poll_kept = m.poll_kept;
          good = whole';
        },
      )

  -- The clock of a round that is not the last, and the end of the one that is.
  checked-Moving :
      (a c : ℕ) (t : Transfer W)
      → c + poll < limit
      → c + poll < word_mod
      → Moving a c t
      → Moving a (c + poll) (checked (pos n) t)
  unfolding checked
  checked-Moving a c t early small m = record {
    rest = m.rest;
    left = m.left;
    sum = m.sum;
    moved = m.moved;
    counted = m.counted;
    untimed = ground (arith, m.untimed, m.limit_kept, m.poll_kept, m.time);
    time = ground (arith, m.poll_kept, m.time);
    limit_kept = m.limit_kept;
    poll_kept = m.poll_kept;
    good = m.good;
  }

  pub record Stopped (a : ℕ) (t : Transfer W) : Type 0 where
    pub over : goes_on os dir (pos n) t ≡ false
    pub code : t.code ≡ code_after num a n
    pub moved : t.off ≡ a
    pub counted : t.num_actual ≡ actual num a

  checked-Stopped :
      (a c : ℕ) (t : Transfer W)
      → 0 < a
      → limit ≤ c + poll
      → c + poll < word_mod
      → Moving a c t
      → Stopped a (checked (pos n) t)
  unfolding checked code_after
  checked-Stopped a c t some_bytes late nowrap m =
      let ends : leb t.sock.timeout ((t.clock + t.sock.polltime) % word_mod) ≡ true =
        ground (arith, m.poll_kept, m.time, m.limit_kept) in
      record {
        over = rw ends (ground arith);
        code = rw (ends, m.counted) (actual-code num a n some_bytes);
        moved = m.moved;
        counted = m.counted;
      }

  transfer-Moving :
      (fuel a c : ℕ) (t : Transfer W)
      → IsSteady
      → 0 < k
      → k + a ≤ n
      → (m : Moving a c t)
      → transfer os dir (pos n) (suc fuel) t
        ≡ transfer os dir (pos n) fuel (checked (pos n) (after t))
  unfolding transfer
  transfer-Moving fuel a c t s moves room m =
      let more : goes_on os dir (pos n) t ≡ true = ground (arith, m.left, m.sum, m.untimed) in
      rw (more, (Moving-round a c t s room m).0, transfer) refl

  transfer-Stopped :
      (fuel a : ℕ) (t : Transfer W)
      → 0 < fuel
      → Stopped a t
      → transfer os dir (pos n) fuel t ≡ some (code_after num a n, t)
  unfolding transfer
  transfer-Stopped zero a t h d = absurd (omega arith)
  transfer-Stopped (suc fuel) a t h d = rw (d.over, transfer) (rw d.code)

  -- The loop stops after `a` bytes.
  abbrev pub Ends : (fuel : ℕ) → Transfer W → (a : ℕ) → Type 0
  Ends fuel t a =
      (t' : Transfer W) × (transfer os dir (pos n) fuel t ≡ some (code_after num a n, t'))
      × Stopped a t'

  -- The call ends after r + 1 rounds, when their time reaches the limit.
  pub transfer-Steady :
      (r fuel a c : ℕ) (t : Transfer W)
      → IsSteady
      → 0 < k
      → a + suc r * k ≤ n
      → (r ≡ 0) ⊎ (c + r * poll < limit)
      → limit ≤ c + suc r * poll
      → c + suc r * poll < word_mod
      → r + 2 ≤ fuel
      → Moving a c t
      → Ends fuel t (a + suc r * k)
  transfer-Steady r zero a c t s moves room early late nowrap enough m = absurd (omega arith)
  transfer-Steady zero (suc fuel) a c t s moves room early late nowrap enough m =
      let (e, m') = Moving-round a c t s (omega arith) m in
      let d : Stopped (a + 1 * k) (checked (pos n) (after t)) =
        subst (λ b. Stopped b (checked (pos n) (after t))) (omega arith)
          (checked-Stopped (a + k) c (after t) (omega arith) (omega arith) (omega arith) m') in
      (
        _,
        transfer-Moving fuel a c t s moves (omega arith) m
            ∙ transfer-Stopped fuel (a + 1 * k) _ (omega arith) d,
        d,
      )
  transfer-Steady (suc r) (suc fuel) a c t s moves room early late nowrap enough m =
      let (e, m') = Moving-round a c t s (omega arith) m in
      let below : c + suc r * poll < limit = omega (arith, early) in
      let m'' = checked-Moving (a + k) c (after t) (omega arith) (omega arith) m' in
      let (t', run, d) =
        transfer-Steady r fuel (a + k) (c + poll) (checked (pos n) (after t)) s moves (omega arith)
          (inr (omega arith)) (omega arith) (omega arith) (omega arith) m'' in
      subst (Ends (suc fuel) t) (omega arith)
        (t', transfer-Moving fuel a c t s moves (omega arith) m ∙ run, d)
