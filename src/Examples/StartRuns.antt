-- ===== src/Examples/StartRuns.antt =====
-- The start-up of Winsock on a system that counts its uses.
use netclass.Common.{ℕ, suc, pos, ◌-◌, ◌≡◌, refl, ◌⊎◌, arith, true}
use netclass.StartUp.{WinsockOs, WinsockContract, initialize, finalize, initialize-finalize}

abbrev winsock : WinsockOs ℕ
winsock = record { startup = λ v w. (pos 0, v, suc w); cleanup = λ w. w - 1 }

winsock-WinsockContract : WinsockContract winsock (λ w. w)
winsock-WinsockContract = record {
  starts = λ v w e. refl;
  start_fails = λ v w e. ground arith;
  cleans = λ w k e. omega arith;
}

initialize-finalize_example :
    let (ret, w') = initialize winsock true 0 in
    ((ret ≡ pos 0) × (w' ≡ 1) × (◌≡◌ {A = ℕ} 514 514) × (finalize winsock true w' ≡ 0))
    ⊎ ((ret ≡ pos 1) × (w' ≡ 0))
initialize-finalize_example =
    initialize-finalize winsock (λ w. w) 0 winsock-WinsockContract (omega arith)
