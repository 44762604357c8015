-- ===== src/Dds.antt =====
-- crates/blsmr/src/dds.rs: the announcement of a command, the collection of the conflicts that the
-- replicas report, and the choice of the fast path. `none` stands for a panic.
pub mod Union
pub mod FastPath
pub mod Announcements
use mathlib.Core.Option
use blsmr.Prelude.{
  ◌>>=◌, ℕ, Bool, true, false, not, ◌&&◌, Option, none, some, List, [], ◌∷◌, ◌++◌, eqb,
  if◌then◌else◌, length, all, contains, map, nat_eq,
}
use blsmr.Client.{CmdId, Command, cmd_id_eq}
use blsmr.Map.{Map, get, insert, remove, contains_key}
use blsmr.Host.{Host}
use blsmr.Effect.{Effect, send, broadcast, timer, send_many}
use blsmr.Metrics.{Metrics}
use blsmr.Sort.{sort, dedup}
use blsmr.Quorum
use blsmr.Quorum.{QuorumSystem, Choices}
use blsmr.Consensus.{Protocol, epaxos, wintermute, three_jane}
use blsmr.Log
use blsmr.Log.{CmdLog, record_creation_at, empty}
use blsmr.Log.Promote

pub record Res : Type 0 where
  pub pid : ℕ
  pub id : CmdId
  pub conflicts : List CmdId

pub record Commit : Type 0 where
  pub cmd_id : CmdId
  pub deps : List CmdId

-- `Announce::Req` holds a `Req`, whose one field is the command.
pub data Announce : Type 0 where
  req : Command → Announce
  res : Res → Announce
  commits : Commit → Announce

pub record QuorumReady : Type 0 where
  pub quorum : List Res
  pub allow_fastpath : Bool

pub data AnnounceStatus : Type 0 where
  do_nothing : AnnounceStatus
  quorum_ready : QuorumReady → AnnounceStatus

pub record Dds : Type 0 where
  pub protocol_type : Protocol
  pub peer_number : ℕ
  pub bqs : QuorumSystem
  pub log : CmdLog
  pub pending_announce_quorums : Map CmdId (List Res)
  pub announce_timeout : ℕ
  pub announce_force_timers : Map ℕ CmdId

-- The configured protocol, quorum system and timeout.
unfoldable pub default : Host → Protocol → QuorumSystem → ℕ → Dds
default h protocol_type bqs announce_timeout = record {
  protocol_type = protocol_type;
  peer_number = length h.pool;
  bqs = bqs;
  log = empty;
  pending_announce_quorums = [];
  announce_timeout = announce_timeout;
  announce_force_timers = [];
}

abbrev pub is_wintermute : Protocol → Bool
is_wintermute wintermute = true
is_wintermute _ = false

abbrev pub is_three_jane : Protocol → Bool
is_three_jane three_jane = true
is_three_jane _ = false

-- `timer_id` is what `schedule_timer_after` returns. The assertion of debug builds is left out.
unfoldable pub prepare_announce : ℕ → Dds → CmdId → Dds × List (Effect Announce)
prepare_announce timer_id d cmd_id =
    let pending = insert cmd_id [] d.pending_announce_quorums in
    if is_wintermute d.protocol_type
    then (
      record d {
        announce_force_timers = insert timer_id cmd_id d.announce_force_timers;
        pending_announce_quorums = pending;
      },
      timer d.announce_timeout timer_id ∷ [],
    )
    else (record d { pending_announce_quorums = pending }, [])

-- `choices` is what the generator of the state decides.
unfoldable pub send_announce : Choices → Dds → Command → Dds × List (Effect Announce)
unfolding send_many
send_announce choices d cmd =
    if is_three_jane d.protocol_type
    then (let (bqs, receivers) = Quorum.choose_random_quorum choices d.bqs in
        (record d { bqs = bqs }, send_many receivers (req cmd)))
    else (d, broadcast (req cmd) ∷ [])

unfoldable pub announce : Host → ℕ → Choices → Dds → Command → Dds × List (Effect Announce)
unfolding prepare_announce send_announce
announce h timer_id choices d cmd =
    let (d1, out1) =
      prepare_announce timer_id (record d { log = record_creation_at d.log cmd.id h.now }) cmd.id in
    let (d2, out2) = send_announce choices d1 cmd in (d2, out1 ++ out2)

abbrev pub pids : List Res → List ℕ
pids = map (λ r. r.pid)

-- The conflicts are those of the first response, up to order; `quorum[0]` panics on an empty list.
unfoldable pub allow_fastpath : ℕ → List Res → Option Bool
allow_fastpath peer_number quorum =
    if eqb (length quorum) peer_number
    then elim quorum [
      | [] ↦ none
      | first ∷ rest ↦ some (
          all
            (λ r.
              eqb (length r.conflicts) (length first.conflicts)
              && all (contains first.conflicts) r.conflicts)
            rest)
    ]
    else some false

unfoldable pub is_quorum : Dds → List Res → Bool
is_quorum d quorum = Quorum.is_quorum d.bqs (pids quorum)

abbrev pub is_ready : Dds → List Res → Bool
is_ready d quorum =
    if is_wintermute d.protocol_type
    then eqb (length quorum) d.peer_number
    else Quorum.is_quorum d.bqs (pids quorum)

-- The quorum leaves the pending ones and is handed to the caller.
unfoldable pub finish : Dds → CmdId → List Res → Option (Dds × AnnounceStatus)
unfolding allow_fastpath
finish d cmd_id quorum = do
  fast ← allow_fastpath d.peer_number quorum
  some (
    record d { pending_announce_quorums = remove cmd_id d.pending_announce_quorums },
    quorum_ready (record { quorum = quorum; allow_fastpath = fast }),
  )

-- The branch of `on_message` for a response.
unfoldable pub on_res : Dds → Res → Option (Dds × AnnounceStatus)
unfolding finish
on_res d r = elim (get r.id d.pending_announce_quorums) [
  | none ↦ some (d, do_nothing)
  | some collected ↦
      let quorum : List Res = collected ++ r ∷ [] in
      if is_ready d quorum
      then finish d r.id quorum
      else some (
        record d { pending_announce_quorums = insert r.id quorum d.pending_announce_quorums },
        do_nothing,
      )
]

unfoldable pub commit : Host → Dds → Metrics → CmdId → List CmdId → Option (Dds × Metrics)
commit h d m cmd_id deps = do
  (log, m') ← Promote.commit h (d.log, m) cmd_id deps
  some (record d { log = log }, m')

-- What a handler returns: the state, the metrics, the effects and the status.
pub record Outcome : Type 0 where
  pub dds : Dds
  pub metrics : Metrics
  pub effects : List (Effect Announce)
  pub status : AnnounceStatus

unfoldable pub on_message : Host → Dds → Metrics → ℕ → Announce → Option Outcome
unfolding on_res commit
on_message h d m from (req cmd) =
    let (log, conflicts) = Log.submit h.now d.log cmd in
    some (record {
      dds = record d { log = log };
      metrics = m;
      effects = send from (res (record { pid = h.pid; id = cmd.id; conflicts = conflicts })) ∷ [];
      status = do_nothing;
    })
on_message h d m from (commits c) = do
  (d', m') ← commit h d m c.cmd_id c.deps
  some (record { dds = d'; metrics = m'; effects = []; status = do_nothing })
on_message h d m from (res r) = do
  (d', status) ← on_res d r
  some (record { dds = d'; metrics = m; effects = []; status = status })

unfoldable pub is_my_timer : Dds → ℕ → Bool
is_my_timer d timer_id = contains_key timer_id d.announce_force_timers

-- The timer is looked up with `expect`.
unfoldable pub on_timer : Dds → ℕ → Option (Dds × AnnounceStatus)
unfolding finish is_quorum
on_timer d id = do
  cmd_id ← get id d.announce_force_timers
  let d' : Dds = record d { announce_force_timers = remove id d.announce_force_timers }
  elim (get cmd_id d.pending_announce_quorums) [
    | none ↦ some (d', do_nothing)
    | some quorum ↦ if is_quorum d quorum then finish d' cmd_id quorum else some (d', do_nothing)
  ]

-- The conflicts of all responses, in order and once each.
abbrev pub all_conflicts : List Res → List CmdId
all_conflicts [] = []
all_conflicts (r ∷ quorum) = r.conflicts ++ all_conflicts quorum

unfoldable pub union_deps : List Res → List CmdId
union_deps quorum = dedup (sort (all_conflicts quorum))
