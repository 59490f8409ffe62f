-- ===== src/Socket/Connect/Attempts.antt =====
-- src/ncsocket.cpp: the loop round ::connect ends, and what the last ::connect said then.
use netclass.Common.{
  ℕ, zero, suc, ℤ, pos, ◌+◌, ◌*◌, ◌≤◌, ◌<◌, ◌≡◌, refl, ◌∙◌, ◌⊎◌, ltb_ℤ, true, false, Option, none,
  some, arith, word_mod,
}
use netclass.Consts.{RetCode}
use netclass.Socket.State.{SockAddrIn}
use netclass.Socket.Connect.Defs.{ConnectOs, judge, later, attempts}

module _ {W : Type 0} (os : ConnectOs W) where
  -- What the last ::connect returned, and the error then, by the code of the loop.
  abbrev pub Says : RetCode → ℤ → ℕ → Type 0
  Says RetCode.ok result err =
      (ltb_ℤ result (pos 0) ≡ false)
      ⊎ ((os.arch.is_blocking_error err ≡ false) × (os.arch.is_connected err ≡ true))
  Says RetCode.timedout result err =
      (ltb_ℤ result (pos 0) ≡ true) × (os.arch.is_blocking_error err ≡ true)
  Says RetCode.failed result err =
      (ltb_ℤ result (pos 0) ≡ true)
      × (os.arch.is_blocking_error err ≡ false)
      × (os.arch.is_connected err ≡ false)
  Says _ result err = ⊥

  pub judge-Says :
      (limit : ℕ) (result : ℤ) (err t : ℕ) (code : RetCode)
      → judge os limit result err t ≡ some code
      → Says code result err
  unfolding judge
  judge-Says limit result err t code e = ground arith

  -- The loop goes on only below the limit.
  pub judge-none :
      (limit : ℕ) (result : ℤ) (err t : ℕ) → judge os limit result err t ≡ none → t ≤ limit
  unfolding judge
  judge-none limit result err t e = ground arith

  module _ (fd : ℤ) (servaddr : SockAddrIn) (limit : ℕ) where
    -- The result of ::connect, the verdict on it, and what the loop does with the verdict.
    abbrev pub called : W → ℤ × W
    called w = os.connect fd servaddr w

    abbrev pub verdict : ℕ → W → Option RetCode
    verdict timeout w = judge os limit (called w).0 (os.last_error (called w).1) (later timeout)

    abbrev pub finish : ℕ → ℕ → W → Option RetCode → Option (RetCode × W)
    finish fuel timeout w v = elim v [
      | some code ↦ some (code, (called w).1)
      | none ↦ attempts os fuel fd limit servaddr (later timeout) (os.sleep 100 (called w).1)
    ]

    pub attempts-step :
        (fuel timeout : ℕ) (w : W)
        → attempts os (suc fuel) fd limit servaddr timeout w
          ≡ finish fuel timeout w (verdict timeout w)
    unfolding attempts
    attempts-step fuel timeout w = refl

    -- The loop returns on this fuel.
    abbrev pub Returns : ℕ → ℕ → W → Type 0
    Returns fuel timeout w =
        (code : RetCode) × (w' : W) × (attempts os fuel fd limit servaddr timeout w
          ≡ some (code, w'))

    finish-Returns :
        (fuel k timeout : ℕ) (w : W) (v : Option RetCode)
        → limit < word_mod
        → ((k' t : ℕ) (u : W) → limit < t + k' * 100 → t ≤ limit → k' ≤ fuel → Returns fuel t u)
        → verdict timeout w ≡ v
        → limit < timeout + k * 100
        → timeout ≤ limit
        → k ≤ suc fuel
        → (code : RetCode) × (w' : W) × (finish fuel timeout w v ≡ some (code, w'))
    finish-Returns fuel k timeout w (some d) small ih j reach le enough = (d, (called w).1, refl)
    finish-Returns fuel zero timeout w none small ih j reach le enough = absurd (omega arith)
    finish-Returns fuel (suc k) timeout w none small ih j reach le enough =
        let err = os.last_error (called w).1 in
        let below = judge-none limit (called w).0 err (later timeout) j in
        ih k (later timeout) (os.sleep 100 (called w).1) (omega arith) below (omega arith)

    -- Each round adds 100 to the time-out, so `k` rounds that pass the limit are enough.
    pub attempts-Returns :
        (fuel k timeout : ℕ) (w : W)
        → limit < word_mod
        → limit < timeout + k * 100
        → timeout ≤ limit
        → k ≤ fuel
        → Returns fuel timeout w
    attempts-Returns zero k timeout w small reach le enough = absurd (omega arith)
    attempts-Returns (suc fuel) k timeout w small reach le enough =
        let (d, w', e) =
          finish-Returns fuel k timeout w (verdict timeout w) small
            (λ k' t u. attempts-Returns fuel k' t u small) refl reach le enough in
        (d, w', attempts-step fuel timeout w ∙ e)
