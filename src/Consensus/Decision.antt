-- ===== src/Consensus/Decision.antt =====
-- When a consensus instance decides, and on what grounds.
use blsmr.Prelude.{
  ℕ, ◌≡◌, refl, ◌↔◌, inl, inr, Bool, true, false, ◌&&◌, ◌||◌, List, [], ◌∷◌, arith, ◌==◌, eqb,
  eqb_iff, length, any, contains, IsDistinct, nat_eq, list_eq, list_beq_iff, Bool-cases,
}
use blsmr.Client.{CmdId, cmd_id_eq}
use blsmr.HashSet
use blsmr.HashSet.Size.{length-le_of_subset, contains_of_length-le}
use blsmr.Host.{Host}
use blsmr.Consensus.{QuorumMsg, response, Instance, accept, Quorum, propose, on_message}

-- The responses are distinct replicas of the instance.
pub record IsWf (i : Instance) : Type 0 where
  pub distinct : IsDistinct i.responses
  pub members : (p : ℕ) → contains i.responses p ≡ true → contains i.replicas p ≡ true

insert_response-IsWf :
    (i : Instance) (from : ℕ)
    → contains i.replicas from ≡ true
    → IsWf i
    → IsWf (record i { responses = HashSet.insert from i.responses })
insert_response-IsWf i from m wf = record {
  distinct = HashSet.insert-IsDistinct from i.responses wf.distinct;
  members = λ p n.
      ground (arith, HashSet.contains-insert from p i.responses, wf.members p, eqb_iff from p);
}

pub accept-IsWf :
    (i : Instance) (from : ℕ) (deps : List CmdId) → IsWf i → IsWf (accept i from deps).0
unfolding accept
accept-IsWf i from deps wf = elim (Bool-cases (i.deps == deps && contains i.replicas from)) [
  | inl ok ↦ rw ok (insert_response-IsWf i from (ground arith) wf)
  | inr bad ↦ rw bad wf
]

accept-decides :
    (i : Instance) (from : ℕ) (deps : List CmdId)
    → IsWf i
    → IsDistinct i.replicas
    → ((accept i from deps).1 ≡ true) ↔ (
        (i.deps ≡ deps)
        × (contains i.replicas from ≡ true)
        × ((p : ℕ) → contains i.replicas p ≡ true → (eqb from p || contains i.responses p) ≡ true))
unfolding accept
accept-decides i from deps wf distinct =
    let all : List ℕ = HashSet.insert from i.responses in
    let inside = λ (p : ℕ). HashSet.contains-insert from p i.responses in
    elim (Bool-cases (i.deps == deps && contains i.replicas from)) [
      | inr bad ↦ (λ h. ground arith, λ h. ground (arith, h.0, h.1, list_beq_iff i.deps deps))
      | inl ok ↦
          let member : contains i.replicas from ≡ true = ground arith in
          let wf' = insert_response-IsWf i from member wf in
          (
            λ h. (
              ground (arith, list_beq_iff i.deps deps),
              member,
              λ p m.
                  let full : length i.replicas ≡ length all = ground arith in
                  ground (
                    arith,
                    inside p,
                    contains_of_length-le all i.replicas p wf'.distinct wf'.members (omega arith) m,
                  ),
            ),
            λ h.
                let le1 = length-le_of_subset all i.replicas wf'.distinct wf'.members in
                let le2 =
                  length-le_of_subset i.replicas all distinct
                    (λ p m. ground (arith, inside p, h.2 p m)) in
                ground (arith, le1, le2),
          )
    ]

-- Only the responses change, and the response is among them afterwards if it is valid.
accept-keeps :
    (i : Instance) (from : ℕ) (deps : List CmdId)
    → ((accept i from deps).0.deps ≡ i.deps)
      × ((accept i from deps).0.replicas ≡ i.replicas)
      × ((p : ℕ)
          → contains (accept i from deps).0.responses p ≡ (
              contains i.responses p || eqb from p && (i.deps == deps && contains i.replicas from)))
unfolding accept
accept-keeps i from deps = elim (Bool-cases (i.deps == deps && contains i.replicas from)) [
  | inl ok ↦ rw ok (refl, refl, λ p. ground (arith, ok, HashSet.contains-insert from p i.responses))
  | inr bad ↦ rw bad (refl, refl, λ p. ground (arith, bad))
]

-- `accept` answers true exactly when the response carries the proposed dependencies, comes from a
-- replica of the committee, and every replica of the committee has responded by then. Whatever it
-- answers, the dependencies and the committee stay, the responses are those before, with this one if
-- it carries the proposed dependencies and comes from the committee, and they are distinct replicas
-- of the committee again.
pub accept_iff :
    (i : Instance) (from : ℕ) (deps : List CmdId)
    → IsWf i
    → IsDistinct i.replicas
    → (((accept i from deps).1 ≡ true) ↔ (
        (i.deps ≡ deps)
        × (contains i.replicas from ≡ true)
        × ((p : ℕ) → contains i.replicas p ≡ true → (eqb from p || contains i.responses p) ≡ true)))
      × ((accept i from deps).0.deps ≡ i.deps)
      × ((accept i from deps).0.replicas ≡ i.replicas)
      × ((p : ℕ)
          → contains (accept i from deps).0.responses p ≡ (
              contains i.responses p || eqb from p && (i.deps == deps && contains i.replicas from)))
      × IsWf (accept i from deps).0
accept_iff i from deps wf distinct =
    let (kept, committee, recorded) = accept-keeps i from deps in
    (accept-decides i from deps wf distinct, kept, committee, recorded, accept-IsWf i from deps wf)

-- What happens to the component: a proposal, or a message.
pub data Call : Type 0 where
  proposes : CmdId → List CmdId → Call
  receives : ℕ → QuorumMsg → Call

module _ (hash : CmdId → ℕ → ℕ) (h : Host) where
  abbrev pub step : Quorum → Call → Quorum
  step q (proposes cmd_id deps) = (propose hash h q cmd_id deps).0
  step q (receives from message) = (on_message q from message).0

  -- The calls, the last one first.
  abbrev pub run : Quorum → List Call → Quorum
  run q [] = q
  run q (call ∷ calls) = step (run q calls) call

  -- The replica has responded to the command with the dependencies.
  abbrev pub is_response : ℕ → CmdId → List CmdId → Call → Bool
  is_response p cmd_id deps (receives from (response m)) =
      eqb from p && (m.cmd_id == cmd_id && m.deps == deps)
  is_response p cmd_id deps _ = false

  abbrev pub responded : List Call → ℕ → CmdId → List CmdId → Bool
  responded calls p cmd_id deps = any (is_response p cmd_id deps) calls
