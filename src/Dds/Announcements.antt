-- ===== src/Dds/Announcements.antt =====
-- The calls around an announcement: what completes its quorum, and what stragglers and timers find.
use blsmr.Prelude.{ℕ, ◌≡◌, ◌⊎◌, true, some, List, [], ◌∷◌, ◌++◌, nat_eq}
use blsmr.Client.{CmdId, cmd_id_eq}
use blsmr.Map.{get}
use blsmr.Host.{Host}
use blsmr.Metrics.{Metrics}
use blsmr.Log.Promote
use blsmr.Dds.{
  Dds, Res, Announce, AnnounceStatus, quorum_ready, QuorumReady, Outcome, is_ready, is_quorum,
  on_res, commit, on_message, on_timer,
}

-- The calls that a leader gets after an announcement.
pub data Later (d : Dds) : Dds → Type 0 where
  here : Later d d
  message :
      {d1 : Dds} (h : Host) (m : Metrics) (from : ℕ) (a : Announce) (o : Outcome)
      → Later d d1
      → on_message h d1 m from a ≡ some o
      → Later d o.dds
  fires :
      {d1 d2 : Dds} (id : ℕ) (status : AnnounceStatus)
      → Later d d1
      → on_timer d1 id ≡ some (d2, status)
      → Later d d2
  decides :
      {d1 d2 : Dds} (h : Host) (m m' : Metrics) (cmd_id : CmdId) (deps : List CmdId)
      → Later d d1
      → commit h d1 m cmd_id deps ≡ some (d2, m')
      → Later d d2

-- A call hands over the quorum of a command: a response completes it, or the timer forces it.
pub data Completes (d : Dds) (id : CmdId) (ready : QuorumReady) : Dds → Type 0 where
  by_response :
      {d' : Dds} (r : Res)
      → r.id ≡ id
      → on_res d r ≡ some (d', quorum_ready ready)
      → Completes d id ready d'
  by_timer :
      {d' : Dds} (timer_id : ℕ)
      → get timer_id d.announce_force_timers ≡ some id
      → on_timer d timer_id ≡ some (d', quorum_ready ready)
      → Completes d id ready d'

-- The quorum that is handed over: that of the command, and a response that completes it, or as it is.
abbrev pub Gathered : Dds → CmdId → List Res → Type 0
Gathered d id quorum =
    (collected : List Res) × (get id d.pending_announce_quorums ≡ some collected)
    × (((r : Res) × (quorum ≡ collected ++ r ∷ []) × (r.id ≡ id) × (is_ready d quorum ≡ true))
        ⊎ ((quorum ≡ collected) × (is_quorum d quorum ≡ true)))
