-- ===== src/Consensus.antt =====
-- crates/blsmr/src/quorum.rs: one consensus instance for each command whose dependencies were not
-- agreed on the fast path.
pub mod Decision
pub mod Grounds
use blsmr.Prelude.{
  ℕ, Bool, true, false, ◌&&◌, Option, none, some, List, [], ◌∷◌, Eq, ◌==◌, eqb, ltb, if◌then◌else◌,
  length, take, contains, nat_eq, list_eq,
}
use blsmr.Client.{CmdId, cmd_id_eq}
use blsmr.Map.{Map, get, insert, remove}
use blsmr.HashSet
use blsmr.Host.{Host}
use blsmr.Effect.{Effect, send, send_many}
use blsmr.Quorum.{QuorumSystem, consensus_committee_size}

-- `BLSMRProtocol` of crates/blsmr/src/lib.rs.
pub data Protocol : Type 0 where
  epaxos wintermute three_jane : Protocol

pub record Request : Type 0 where
  pub cmd_id : CmdId
  pub deps : List CmdId

pub record Response : Type 0 where
  pub cmd_id : CmdId
  pub deps : List CmdId

pub data QuorumMsg : Type 0 where
  request : Request → QuorumMsg
  response : Response → QuorumMsg

pub data QuorumStatus : Type 0 where
  do_nothing : QuorumStatus
  decided : CmdId → List CmdId → QuorumStatus

pub record Instance : Type 0 where
  pub deps : List CmdId
  pub replicas : List ℕ
  pub responses : List ℕ

abbrev pub new : List CmdId → List ℕ → Instance
new deps replicas = record { deps = deps; replicas = replicas; responses = [] }

-- `accept`: the instance with the response, and whether it was the last one.
unfoldable pub accept : Instance → ℕ → List CmdId → Instance × Bool
accept i from deps =
    if i.deps == deps && contains i.replicas from
    then (
      record i { responses = HashSet.insert from i.responses },
      eqb (length (HashSet.insert from i.responses)) (length i.replicas),
    )
    else (i, false)

pub record Quorum : Type 0 where
  pub protocol_type : Protocol
  pub bqs : QuorumSystem
  pub instances : Map CmdId Instance

-- The configured protocol and quorum system.
unfoldable pub default : Protocol → QuorumSystem → Quorum
default protocol_type bqs = record { protocol_type = protocol_type; bqs = bqs; instances = [] }

-- `sort_by_key`, which is stable, at the hashes of the replicas.
unfoldable pub insert_by_key : (ℕ → ℕ) → ℕ → List ℕ → List ℕ
insert_by_key hash p [] = p ∷ []
insert_by_key hash p (q ∷ l) =
    if ltb (hash q) (hash p) then q ∷ insert_by_key hash p l else p ∷ q ∷ l

unfoldable pub sort_by_key : (ℕ → ℕ) → List ℕ → List ℕ
unfolding insert_by_key
sort_by_key hash [] = []
sort_by_key hash (p ∷ l) = insert_by_key hash p (sort_by_key hash l)

-- `hash` is what `FxHasher` makes of a command and a replica.
unfoldable pub replicas : (CmdId → ℕ → ℕ) → Host → Quorum → CmdId → List ℕ
unfolding sort_by_key
replicas hash h q cmd_id = elim q.protocol_type [
  | three_jane ↦ take (consensus_committee_size q.bqs) (sort_by_key (hash cmd_id) h.pool)
  | _ ↦ h.pool
]

unfoldable pub propose :
    (CmdId → ℕ → ℕ) → Host → Quorum → CmdId → List CmdId → Quorum × List (Effect QuorumMsg)
unfolding replicas send_many
propose hash h q cmd_id deps =
    let committee : List ℕ = replicas hash h q cmd_id in
    (
      record q { instances = insert cmd_id (new deps committee) q.instances },
      send_many committee (request (record { cmd_id = cmd_id; deps = deps })),
    )

-- A response, with the instance that it belongs to.
unfoldable pub on_response : Quorum → ℕ → Response → Instance → Quorum × QuorumStatus
unfolding accept
on_response q from m i =
    let (i', decision) = accept i from m.deps in
    if decision
    then (
      record q { instances = remove m.cmd_id (insert m.cmd_id i' q.instances) },
      decided m.cmd_id i'.deps,
    )
    else (record q { instances = insert m.cmd_id i' q.instances }, do_nothing)

unfoldable pub on_message : Quorum → ℕ → QuorumMsg → Quorum × List (Effect QuorumMsg) × QuorumStatus
unfolding on_response
on_message q from (request m) =
    (q, send from (response (record { cmd_id = m.cmd_id; deps = m.deps })) ∷ [], do_nothing)
on_message q from (response m) = elim (get m.cmd_id q.instances) [
  | none ↦ (q, [], do_nothing)
  | some i ↦ let (q', status) = on_response q from m i in (q', [], status)
]
