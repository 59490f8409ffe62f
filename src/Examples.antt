-- ===== src/Examples.antt =====
-- Concrete systems, runs of the model on them, and the theorems at inputs that meet their hypotheses.
mod Device
mod QuietListen
mod PollRuns
mod ConnectRuns
mod MutexRuns
mod ListenRuns
mod StartRuns
mod SelectRuns
mod ServerRuns
mod ThreadRuns
mod ArchRuns
mod StreamRuns
mod QuotaRuns
mod UdpRuns
mod BuildRuns
mod ReclaimRuns
mod DifferRuns
mod NapRuns
mod OrderRuns
mod SectionRuns
mod DatagramRuns
mod OwnedRuns
