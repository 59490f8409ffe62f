-- ===== src/StartUp.antt =====
-- src/netclass.cpp: `netClass`, which starts Winsock on WIN32.
use netclass.Common.{
  ℕ, suc, ℤ, pos, ◌+◌, ◌*◌, ◌/◌, ◌%◌, ◌<◌, ◌≡◌, ◌⊎◌, inl, inr, eqb_ℤ, ◌==◌, ◌||◌, not,
  if◌then◌else◌, Bool, true, false, arith, Bool-cases,
}

module _ (W : Type 0) where
  -- WSAStartup with its result and the version that it leaves, and WSACleanup.
  pub record WinsockOs : Type 0 where
    pub startup : (wanted : ℕ) → W → ℤ × ℕ × W
    pub cleanup : W → W

-- MAKEWORD, LOBYTE and HIBYTE.
abbrev pub make_word : ℕ → ℕ → ℕ
make_word low high = low + high * 256

abbrev pub low_byte : ℕ → ℕ
low_byte w = w % 256

abbrev pub high_byte : ℕ → ℕ
high_byte w = w / 256 % 256

module _ {W : Type 0} (os : WinsockOs W) (win32 : Bool) where
  -- int netClass::initialize().
  unfoldable pub initialize : W → ℤ × W
  initialize w =
      if win32
      then (let (err, version, w') = os.startup (make_word 2 2) w in
          if not (eqb_ℤ err (pos 0))
          then (pos 1, w')
          else if not (low_byte version == 2) || not (high_byte version == 2)
          then (pos 1, os.cleanup w')
          else (pos 0, w'))
      else (pos 0, w)

  -- netClass::~netClass().
  unfoldable pub finalize : W → W
  finalize w = if win32 then os.cleanup w else w

module _ {W : Type 0} (os : WinsockOs W) (users : W → ℕ) where
  -- WSAStartup adds a use of the library if its result is 0, and WSACleanup takes one away.
  pub record WinsockContract : Type 0 where
    pub starts :
        (v : ℕ) (w : W)
        → eqb_ℤ (os.startup v w).0 (pos 0) ≡ true
        → users (os.startup v w).2 ≡ suc (users w)
    pub start_fails :
        (v : ℕ) (w : W)
        → eqb_ℤ (os.startup v w).0 (pos 0) ≡ false
        → users (os.startup v w).2 ≡ users w
    pub cleans : (w : W) (k : ℕ) → users w ≡ suc k → users (os.cleanup w) ≡ k

  -- On WIN32 initialize returns 0 with one use of Winsock more, whose version is 2.2, and then the
  -- destructor gives that use back; or it returns 1 with no use more.
  pub initialize-finalize :
      (w : W)
      → WinsockContract
      → (os.startup (make_word 2 2) w).1 < 65536
      → let (ret, w') = initialize os true w in
        ((ret ≡ pos 0)
          × (users w' ≡ suc (users w))
          × ((os.startup (make_word 2 2) w).1 ≡ make_word 2 2)
          × (users (finalize os true w') ≡ users w))
        ⊎ ((ret ≡ pos 1) × (users w' ≡ users w))
  unfolding initialize finalize
  initialize-finalize w c word =
      let s = os.startup (make_word 2 2) w in
      elim (Bool-cases (eqb_ℤ s.0 (pos 0))) [
        | inr bad ↦ inr (ground arith, ground (arith, c.start_fails (make_word 2 2) w bad))
        | inl good ↦
            let more = c.starts (make_word 2 2) w good in
            elim (Bool-cases (not (low_byte s.1 == 2) || not (high_byte s.1 == 2))) [
              | inl other ↦ inr (ground arith, ground (arith, c.cleans s.2 (users w) more))
              | inr same ↦ inl (
                ground arith,
                ground arith,
                ground arith,
                ground (arith, c.cleans s.2 (users w) more),
              )
            ]
      ]
