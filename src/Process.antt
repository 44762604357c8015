-- ===== src/Process.antt =====
-- crates/blsmr/src/process.rs: the replica. It hands messages and timers to the announcement and
-- consensus components and acts on their statuses. `none` stands for a panic.
pub mod Total
pub mod Timers
use blsmr.Prelude.{
  ◌>>=◌, ℕ, zero, suc, ◌+◌, Bool, not, Option, none, some, List, [], ◌∷◌, ◌++◌, map, ltb, eqb,
  if◌then◌else◌, keep,
}
use blsmr.Client.{CmdId, Command, create_cmd, create_cmd_for_key}
use blsmr.Host.{Host}
use blsmr.Effect.{Effect, send, broadcast, timer, send_many}
use blsmr.Metrics.{Metrics, record_arrival, record_path, record_decision}
use blsmr.Quorum.{QuorumSystem, Choices}
use blsmr.Consensus
use blsmr.Consensus.{Protocol, Quorum, QuorumMsg, QuorumStatus}
use blsmr.Dds
use blsmr.Dds.{Dds, Announce, AnnounceStatus, Res, req, commits, union_deps}

pub data Message : Type 0 where
  announce : Announce → Message
  quorum : QuorumMsg → Message

-- The fields of `BLSMR`. Of the key distribution it is kept whether there is one; what it and the
-- random generator give is drawn when a timer submits.
pub record Blsmr : Type 0 where
  pub submit_interval : ℕ
  pub submit_limit : ℕ
  pub submitted : ℕ
  pub key_count : ℕ
  pub key_zipf : Bool
  pub current_submit_timer_id : ℕ
  pub track_conflict_rate : Bool
  pub dds : Dds
  pub quorum : Quorum

-- What the simulator's key-value store holds for a replica.
pub record Config : Type 0 where
  pub submit_interval : ℕ
  pub submit_limit : ℕ
  pub key_count : ℕ
  pub key_zipf : Bool
  pub quorum_system : QuorumSystem
  pub announce_timeout : ℕ
  pub protocol_type : Protocol
  pub track_conflict_rate : Bool

unfoldable pub default : Host → Config → Blsmr
default h c = record {
  submit_interval = c.submit_interval;
  submit_limit = c.submit_limit;
  submitted = 0;
  key_count = c.key_count;
  key_zipf = c.key_zipf;
  current_submit_timer_id = 0;
  track_conflict_rate = c.track_conflict_rate;
  dds = Dds.default h c.protocol_type c.quorum_system c.announce_timeout;
  quorum = Consensus.default c.protocol_type c.quorum_system;
}

-- A replica with the metrics it shares and the effects that it asked for.
pub record Run : Type 0 where
  pub state : Blsmr
  pub metrics : Metrics
  pub effects : List (Effect Message)

abbrev pub lift_effect : {M : Type 0} → (M → Message) → Effect M → Effect Message
lift_effect f (send to m) = send to (f m)
lift_effect f (broadcast m) = broadcast (f m)
lift_effect f (timer delay id) = timer delay id

abbrev pub emit : {M : Type 0} → (M → Message) → List (Effect M) → Run → Run
emit f out r = record r { effects = r.effects ++ map (lift_effect f) out }

unfoldable pub sched_submit : ℕ → Run → Run
sched_submit timer_id r = record r {
  state = record r.state { current_submit_timer_id = timer_id };
  effects = r.effects ++ timer r.state.submit_interval timer_id ∷ [];
}

unfoldable pub on_start : ℕ → Run → Run
unfolding sched_submit
on_start timer_id r = if eqb r.state.submit_limit 0 then r else sched_submit timer_id r

abbrev pub when_tracked : Run → Metrics → Metrics
when_tracked r m = if r.state.track_conflict_rate then m else r.metrics

unfoldable pub decide : Host → Run → CmdId → List CmdId → Option Run
unfolding send_many
decide h r cmd_id deps = do
  (dds, metrics) ←
      Dds.commit h r.state.dds (when_tracked r (record_decision r.metrics cmd_id deps)) cmd_id deps
  some (
      emit announce
        (send_many (keep (λ pid. not (eqb pid h.pid)) h.pool)
          (commits (record { cmd_id = cmd_id; deps = deps })))
        (record r { state = record r.state { dds = dds }; metrics = metrics }))

unfoldable pub propose : (CmdId → ℕ → ℕ) → Host → Run → CmdId → List CmdId → Run
propose hash h r cmd_id deps =
    let (q, out) = Consensus.propose hash h r.state.quorum cmd_id deps in
    emit quorum out (record r { state = record r.state { quorum = q } })

-- `quorum.quorum[0].id`.
abbrev pub first_id : List Res → Option CmdId
first_id [] = none
first_id (r ∷ _) = some r.id

unfoldable pub handle_announce_status : (CmdId → ℕ → ℕ) → Host → Run → AnnounceStatus → Option Run
unfolding decide propose
handle_announce_status hash h r AnnounceStatus.do_nothing = some r
handle_announce_status hash h r (AnnounceStatus.quorum_ready ready) = do
  cmd_id ← first_id ready.quorum
  let r' : Run = record r {
    metrics = when_tracked r (record_path r.metrics cmd_id ready.allow_fastpath);
  }
  let deps : List CmdId = union_deps ready.quorum
  if ready.allow_fastpath then decide h r' cmd_id deps else some (propose hash h r' cmd_id deps)

unfoldable pub handle_quorum_status : Host → Run → QuorumStatus → Option Run
unfolding decide
handle_quorum_status h r QuorumStatus.do_nothing = some r
handle_quorum_status h r (QuorumStatus.decided cmd_id deps) = decide h r cmd_id deps

abbrev pub arrival : Run → Announce → Run
arrival r (req cmd) = record r {
  metrics = when_tracked r (record_arrival r.metrics cmd.id cmd.key);
}
arrival r _ = r

unfoldable pub on_message : (CmdId → ℕ → ℕ) → Host → Run → ℕ → Message → Option Run
unfolding handle_announce_status handle_quorum_status
on_message hash h r from (announce message) = do
  let r' : Run = arrival r message
  o ← Dds.on_message h r'.state.dds r'.metrics from message
  handle_announce_status hash h
      (emit announce o.effects
        (record r' { state = record r'.state { dds = o.dds }; metrics = o.metrics }))
      o.status
on_message hash h r from (quorum message) =
    let (q, out, status) = Consensus.on_message r.state.quorum from message in
    handle_quorum_status h (emit quorum out (record r { state = record r.state { quorum = q } }))
      status

-- What one submission draws: the identifier of the command, the sample of the Zipf distribution and
-- the choice of a key below a bound, the announcement's timer and random choices, and the next
-- submission's timer.
pub record Draw : Type 0 where
  pub unique_id : ℕ
  pub sample : ℕ
  pub choose : ℕ → Option ℕ
  pub force_timer : ℕ
  pub choices : Choices
  pub submit_timer : ℕ

-- The command that a submission draws. The subtraction from the sample panics at zero.
unfoldable pub draw_cmd : Host → Draw → Blsmr → Option Command
unfolding create_cmd create_cmd_for_key
draw_cmd h draw s =
    if s.key_zipf
    then elim draw.sample [
      | zero ↦ none
      | suc key ↦ some (create_cmd_for_key h.pid draw.unique_id key)
    ]
    else create_cmd h.pid draw.unique_id draw.choose s.key_count

-- The statements of that branch after the command has been drawn.
unfoldable pub submit_cmd : Host → Draw → Command → Run → Run
unfolding sched_submit
submit_cmd h draw cmd r =
    let (dds, out) = Dds.announce h draw.force_timer draw.choices r.state.dds cmd in
    let submitted : ℕ = r.state.submitted + 1 in
    let r' : Run = emit announce out (record r {
      state = record r.state { dds = dds; submitted = submitted };
      metrics = when_tracked r (record_arrival r.metrics cmd.id cmd.key);
    }) in
    if ltb submitted r.state.submit_limit then sched_submit draw.submit_timer r' else r'

-- The branch of `on_timer` for the submission timer.
unfoldable pub submit : Host → Draw → Run → Option Run
unfolding draw_cmd submit_cmd
submit h draw r = do cmd ← draw_cmd h draw r.state; some (submit_cmd h draw cmd r)

unfoldable pub on_timer : (CmdId → ℕ → ℕ) → Host → Draw → Run → ℕ → Option Run
unfolding handle_announce_status submit
on_timer hash h draw r id =
    if Dds.is_my_timer r.state.dds id
    then (do
      (dds, status) ← Dds.on_timer r.state.dds id
      handle_announce_status hash h (record r { state = record r.state { dds = dds } }) status)
    else if eqb id r.state.current_submit_timer_id
    then submit h draw r
    else none
