-- ===== src/Listener/Clients.antt =====
-- src/ncsocklist.cpp: what becomes of the connections that `startListening` accepts.
use netclass.Common.{
  ℕ, zero, suc, ℤ, ◌≡◌, ◌≢◌, ◌<◌, sym, refl, ◌∙◌, ◌⊎◌, inl, inr, true, false, Option, none, some,
  arith, Option-cases,
}
use netclass.Consts.{RetCode}
use netclass.Listener.Defs.{Listener, ListenOs}
use netclass.Listener.Serve.{Serving, accept_round, accept_verdict, accept_loop}
use netclass.Listener.Handing.{ClientContract, accept_round-loose}
use netclass.Listener.Failing.{ThreadError, accept_round-fails}

module _ {W : Type 0} (os : ListenOs W) (loose : W → ℕ) where
  module _ (fn : ℕ) (option flags : ℤ) where
    accept_verdict-code :
        (v : Serving W) (code : RetCode)
        → accept_verdict os fn option flags v ≡ some code
        → ((code ≡ RetCode.ok) × (v.listener.listening ≡ 0))
          ⊎ ((code ≡ RetCode.failed) × (v.ok ≡ false))
    unfolding accept_verdict
    accept_verdict-code v code e = ground arith

    accept_verdict-none : (v : Serving W) → accept_verdict os fn option flags v ≡ none → v.ok ≡ true
    unfolding accept_verdict
    accept_verdict-none v e = ground arith

    abbrev finish_accept : ℕ → Serving W → Option RetCode → Option (RetCode × Listener × W)
    finish_accept fuel v d = elim d [
      | some code ↦ some (code, v.listener, v.world)
      | none ↦ accept_loop os fn option flags fuel (accept_round os fn option flags v)
    ]

    accept_loop-step :
        (fuel : ℕ) (v : Serving W)
        → accept_loop os fn option flags (suc fuel) v
          ≡ finish_accept fuel v (accept_verdict os fn option flags v)
    unfolding accept_loop
    accept_loop-step fuel v = refl

    -- What startListening promises of the loop that accepts.
    abbrev pub Kept : Serving W → RetCode → Listener → W → Type 0
    Kept v code l' w' =
        (loose w' ≡ loose v.world)
        × (((code ≡ RetCode.ok) × (l'.listening ≡ 0))
            ⊎ ((code ≡ RetCode.failed) × ((v.ok ≡ false) ⊎ ThreadError os fn option flags)))

    finish_accept-Kept :
        (fuel : ℕ) (v : Serving W) (d : Option RetCode) (code : RetCode) (l' : Listener) (w' : W)
        → ClientContract os loose
        → (accept_loop os fn option flags fuel (accept_round os fn option flags v)
              ≡ some (code, l', w')
            → Kept (accept_round os fn option flags v) code l' w')
        → accept_verdict os fn option flags v ≡ d
        → finish_accept fuel v d ≡ some (code, l', w')
        → Kept v code l' w'
    finish_accept-Kept fuel v (some code₀) code l' w' c ih e run =
        ground (arith, accept_verdict-code v code₀ e)
    finish_accept-Kept fuel v none code l' w' c ih e run =
        let (same, rest) = ih run in
        (
          same ∙ accept_round-loose os loose fn option flags v c,
          elim rest [
            | inl stopped ↦ inl stopped
            | inr (failed, inr error) ↦ inr (failed, inr error)
            | inr (failed, inl bad) ↦ inr (
              failed,
              inr (
                  accept_round-fails os fn option flags v c.threaded c.allocates
                    (accept_verdict-none v e) bad),
            )
          ],
        )

    accept_loop-Kept :
        (fuel : ℕ) (v : Serving W) (code : RetCode) (l' : Listener) (w' : W)
        → ClientContract os loose
        → accept_loop os fn option flags fuel v ≡ some (code, l', w')
        → Kept v code l' w'
    unfolding accept_loop
    accept_loop-Kept zero v code l' w' c run = absurd (ground arith)
    accept_loop-Kept (suc fuel) v code l' w' c run =
        finish_accept-Kept fuel v (accept_verdict os fn option flags v) code l' w' c
          (accept_loop-Kept fuel (accept_round os fn option flags v) code l' w' c) refl
          (sym (accept_loop-step fuel v) ∙ run)

    -- The state after a number of rounds that go on.
    abbrev pub rounds : ℕ → Serving W → Serving W
    rounds zero v = v
    rounds (suc k) v = rounds k (accept_round os fn option flags v)

    abbrev pub Returns : ℕ → Serving W → Type 0
    Returns fuel v =
        (code : RetCode) × (l' : Listener) × (w' : W) × (accept_loop os fn option flags fuel v
          ≡ some (code, l', w'))

    stopped-verdict :
        (v : Serving W) → v.listener.listening ≡ 0 → accept_verdict os fn option flags v ≢ none
    unfolding accept_verdict
    stopped-verdict v stopped e = ground arith

    accept_loop-some :
        (fuel : ℕ) (v : Serving W) (code : RetCode)
        → accept_verdict os fn option flags v ≡ some code
        → Returns (suc fuel) v
    accept_loop-some fuel v code e = (code, v.listener, v.world, accept_loop-step fuel v ∙ rw e)

    accept_loop-Returns :
        (k fuel : ℕ) (v : Serving W)
        → (rounds k v).listener.listening ≡ 0
        → k < fuel
        → Returns fuel v
    accept_loop-Returns k zero v stopped enough = absurd (omega arith)
    accept_loop-Returns zero (suc fuel) v stopped enough =
        elim (Option-cases (accept_verdict os fn option flags v)) [
          | inl on ↦ absurd (stopped-verdict v stopped on)
          | inr (code, e) ↦ accept_loop-some fuel v code e
        ]
    accept_loop-Returns (suc k) (suc fuel) v stopped enough =
        elim (Option-cases (accept_verdict os fn option flags v)) [
          | inl on ↦
              let (code, l', w', e) =
                accept_loop-Returns k fuel (accept_round os fn option flags v) stopped
                  (omega arith) in
              (code, l', w', accept_loop-step fuel v ∙ rw on e)
          | inr (code, e) ↦ accept_loop-some fuel v code e
        ]

    -- In a build with threads, where memory does not run out and clients have positive descriptors:
    -- when m_listening has become 0 after k rounds of the loop that accepts, it returns within k + 1
    -- tests. Each connection that it accepted has then been handed to the callback, in this thread or
    -- in one that was created, or has been closed; and the code is NC_OK, with the listener found
    -- stopped, or NC_FAILED, when a thread could not be created, detached or joined, or the state of
    -- the loop was that of a failure at its start.
    pub accept_loop-Stops :
        (k fuel : ℕ) (v : Serving W)
        → ClientContract os loose
        → (rounds k v).listener.listening ≡ 0
        → k < fuel
        → (code : RetCode) × (l' : Listener) × (w' : W) × (accept_loop os fn option flags fuel v
            ≡ some (code, l', w'))
          × Kept v code l' w'
    accept_loop-Stops k fuel v c stopped enough =
        let (code, l', w', e) = accept_loop-Returns k fuel v stopped enough in
        (code, l', w', e, accept_loop-Kept fuel v code l' w' c e)
