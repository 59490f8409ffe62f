-- ===== src/Listener/Whole.antt =====
-- src/ncsocklist.cpp: `startListening` of a TCP listener as a whole.
use netclass.Common.{ℕ, ℤ, ◌≡◌, ◌⊎◌, true, Option, some}
use netclass.Consts.{RetCode}
use netclass.Socket.State.{zero_addr}
use netclass.Thread.Defs.{NcThread}
use netclass.Listener.Defs.{Listener, ListenOs}
use netclass.Listener.Serve.{Serving}
use netclass.Listener.Start.{bad_args}
use netclass.Listener.Handing.{ClientContract}
use netclass.Listener.Ending.{EndContract}
use netclass.Listener.Causes.{Cause}
use netclass.Listener.Quiet.{StartContract}

module _ {W : Type 0} (os : ListenOs W) (loose patience : W → ℕ) where
  module _ (fn : ℕ) (option flags : ℤ) where
    -- The call has returned, no connection is loose that was not before, and the code says why.
    abbrev pub Finished : W → Option (Option RetCode × Listener × W) → Type 0
    Finished w result =
        (code : RetCode) × (l' : Listener) × (w' : W) × (result ≡ some (some code, l', w'))
        × (loose w' ≡ loose w)
        × (((code ≡ RetCode.ok) × (l'.listening ≡ 0))
            ⊎ ((code ≡ RetCode.failed) × Cause os fn option flags)
            ⊎ ((code ≡ RetCode.badargs) × (bad_args fn option flags ≡ true)))

    -- What is known of the contracts.
    pub record Known : Type 0 where
      pub clients : ClientContract os loose
      pub calls : StartContract os loose patience
      pub ends : EndContract os patience

    -- The state in which the loop that accepts begins.
    abbrev pub serving : NcThread → Listener → W → Serving W
    serving thread l w = record {
      ok = true;
      thread = thread;
      clientaddr = zero_addr;
      listener = l;
      world = w;
    }
