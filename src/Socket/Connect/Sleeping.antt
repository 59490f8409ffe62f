-- ===== src/Socket/Connect/Sleeping.antt =====
-- src/ncsocket.cpp: how long the loop round ::connect sleeps.
use netclass.Common.{
  ℕ, zero, suc, ℤ, ◌+◌, ◌≤◌, ◌<◌, ◌≡◌, refl, sym, ◌∙◌, List, Option, none, some, arith, word_mod,
}
use netclass.Consts.{RetCode}
use netclass.Arch.Defs.{ModeCalls, ModeForm, by_fcntl, by_ioctlsocket, set_nonblocking}
use netclass.Socket.State.{SockAddrIn}
use netclass.Socket.Connect.Defs.{ConnectOs, nonblocking, judge, later, attempts}
use netclass.Socket.Connect.Attempts.{Says, judge-Says, judge-none, verdict, finish, attempts-step}

module _ {W : Type 0} (os : ConnectOs W) (slept : W → ℕ) where
  -- An observation of the time spent asleep, which only sleeping changes.
  pub record SleepContract : Type 0 where
    pub sleeps : (ms : ℕ) (w : W) → slept (os.sleep ms w) ≡ slept w + ms
    pub connect_keeps : (fd : ℤ) (a : SockAddrIn) (w : W) → slept (os.connect fd a w).1 ≡ slept w
    pub get_fd_keeps : (fd : ℤ) (w : W) → slept (os.modes.get_fd fd w).1 ≡ slept w
    pub set_fl_keeps : (fd : ℤ) (flags : ℕ) (w : W) → slept (os.modes.set_fl fd flags w) ≡ slept w
    pub set_fionbio_keeps :
        (fd : ℤ) (pointer : ℕ) (w : W) → slept (os.modes.set_fionbio fd pointer w) ≡ slept w
    pub socket_keeps :
        (domain type protocol : ℕ) (w : W) → slept (os.socket domain type protocol w).1 ≡ slept w
    pub host_by_name_keeps :
        (host : List ℕ) (w : W) → slept (os.get_host_by_name host w).1 ≡ slept w

module _ {W O : Type 0} (modes : ModeCalls W) (slept : W → O) where
  pub set_nonblocking-keeps :
      (form : ModeForm) (fd : ℤ) (w : W)
      → ((w₁ : W) → slept (modes.get_fd fd w₁).1 ≡ slept w₁)
      → ((flags : ℕ) (w₁ : W) → slept (modes.set_fl fd flags w₁) ≡ slept w₁)
      → ((pointer : ℕ) (w₁ : W) → slept (modes.set_fionbio fd pointer w₁) ≡ slept w₁)
      → slept (set_nonblocking modes form fd w) ≡ slept w
  unfolding set_nonblocking
  set_nonblocking-keeps (by_fcntl o) fd w g s i = s _ _ ∙ g w
  set_nonblocking-keeps by_ioctlsocket fd w g s i = i 1 w

module _ {W : Type 0} (os : ConnectOs W) (slept : W → ℕ) where
  pub nonblocking-slept :
      (fd : ℤ) (w : W) → SleepContract os slept → slept (nonblocking os fd w) ≡ slept w
  nonblocking-slept fd w c =
      set_nonblocking-keeps os.modes slept os.arch.mode_form fd w (c.get_fd_keeps fd)
        (c.set_fl_keeps fd) (c.set_fionbio_keeps fd)

-- What each code says of the time slept from `start` to `now`, with a limit: never more than the
-- limit, and on a time-out less than one interval short of it.
abbrev pub Slept : RetCode → (limit start now : ℕ) → Type 0
Slept RetCode.timedout limit start now = (now ≤ start + limit) × (start + limit < now + 100)
Slept RetCode.ok limit start now = now ≤ start + limit
Slept RetCode.failed limit start now = now ≤ start + limit
Slept _ limit start now = ⊥

judge-Slept :
    {W : Type 0} (os : ConnectOs W) (limit start timeout now : ℕ) (result : ℤ) (err : ℕ)
    (code : RetCode)
    → timeout ≤ limit
    → limit < word_mod
    → now ≡ start + timeout
    → judge os limit result err (later timeout) ≡ some code
    → Slept code limit start now
unfolding judge
judge-Slept os limit start timeout now result err code le small so_far e = ground arith

module _ {W : Type 0} (os : ConnectOs W) (slept : W → ℕ) (fd : ℤ) (servaddr : SockAddrIn)
    (limit start : ℕ) where
  -- The result of the loop, begun when `start` had been slept: the time, and the last ::connect.
  pub record Attempted (code : RetCode) (w' : W) : Type 0 where
    pub slept_for : Slept code limit start (slept w')
    pub last : W
    pub from_last : w' ≡ (os.connect fd servaddr last).1
    pub says : Says os code (os.connect fd servaddr last).0 (os.last_error w')

  module _ (c : SleepContract os slept) (small : limit < word_mod) where
    -- The loop ends in this round.
    ended-Attempted :
        (timeout : ℕ) (w : W) (code : RetCode)
        → verdict os fd servaddr limit timeout w ≡ some code
        → timeout ≤ limit
        → slept w ≡ start + timeout
        → Attempted code (os.connect fd servaddr w).1
    ended-Attempted timeout w code j le so_far = record {
      slept_for =
          judge-Slept os limit start timeout _ _ _ code le small
            (c.connect_keeps fd servaddr w ∙ so_far) j;
      last = w;
      from_last = refl;
      says = judge-Says os limit _ _ _ code j;
    }

    finish-Attempted :
        (fuel timeout : ℕ) (w : W) (code : RetCode) (w' : W) (v : Option RetCode)
        → ((t : ℕ) (u : W)
            → t ≤ limit
            → slept u ≡ start + t
            → attempts os fuel fd limit servaddr t u ≡ some (code, w')
            → Attempted code w')
        → verdict os fd servaddr limit timeout w ≡ v
        → timeout ≤ limit
        → slept w ≡ start + timeout
        → finish os fd servaddr limit fuel timeout w v ≡ some (code, w')
        → Attempted code w'
    finish-Attempted fuel timeout w code w' (some d) ih j le so_far e =
        let same : w' ≡ (os.connect fd servaddr w).1 = ground arith in
        let agreed : code ≡ d = ground arith in
        rw (same, agreed) (ended-Attempted timeout w d j le so_far)
    finish-Attempted fuel timeout w code w' none ih j le so_far e =
        let r = os.connect fd servaddr w in
        let below = judge-none os limit r.0 (os.last_error r.1) (later timeout) j in
        ih (later timeout) (os.sleep 100 r.1) below
          (omega (arith, c.sleeps 100 r.1, c.connect_keeps fd servaddr w)) e

    pub attempts-Attempted :
        (fuel timeout : ℕ) (w : W) (code : RetCode) (w' : W)
        → timeout ≤ limit
        → slept w ≡ start + timeout
        → attempts os fuel fd limit servaddr timeout w ≡ some (code, w')
        → Attempted code w'
    unfolding attempts
    attempts-Attempted zero timeout w code w' le so_far e = cc
    attempts-Attempted (suc fuel) timeout w code w' le so_far e =
        finish-Attempted fuel timeout w code w' (verdict os fd servaddr limit timeout w)
          (λ t u. attempts-Attempted fuel t u code w') refl le so_far
          (sym (attempts-step os fd servaddr limit fuel timeout w) ∙ e)
