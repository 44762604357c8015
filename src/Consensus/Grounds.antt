-- ===== src/Consensus/Grounds.antt =====
-- A decision rests on the responses of the whole committee, over any sequence of calls.
use blsmr.Prelude.{
  ℕ, ◌≡◌, refl, ap, ◌∙◌, ◌⊎◌, inl, inr, true, ◌&&◌, none, some, List, [], ◌∷◌, arith, ◌==◌,
  if◌then◌else◌, eqb, eqb_iff, contains, IsDistinct, nat_eq, list_eq, list_beq_iff, Bool-cases,
  Option-cases,
}
use blsmr.Client.{CmdId, cmd_id_eq, cmd_id_beq_iff}
use blsmr.Map.{get, insert, get-insert, get-remove}
use blsmr.HashSet
use blsmr.Host.{Host}
use blsmr.Consensus.{
  Response, request, response, do_nothing, decided, Instance, new, accept, Quorum, replicas,
  propose, on_response, on_message,
}
use blsmr.Consensus.Decision.{
  IsWf, accept-IsWf, accept_iff, Call, proposes, receives, step, run, responded,
}

-- A response leaves the instance with the response, or none after the decision.
on_response-get :
    (q : Quorum) (from : ℕ) (m : Response) (i : Instance) (id : CmdId)
    → get id (on_response q from m i).0.instances ≡ (
        if m.cmd_id == id
        then (if (accept i from m.deps).1 then none else some (accept i from m.deps).0)
        else get id q.instances)
unfolding on_response
on_response-get q from m i id = elim (Bool-cases (accept i from m.deps).1) [
  | inl yes_ ↦ rw yes_ (
      ground (
        arith,
        get-remove id m.cmd_id (insert m.cmd_id (accept i from m.deps).0 q.instances),
        get-insert id m.cmd_id (accept i from m.deps).0 q.instances,
      ))
  | inr no_ ↦ rw no_ (get-insert id m.cmd_id (accept i from m.deps).0 q.instances)
]

-- A response is recorded only where it is valid.
accept-responses :
    (i : Instance) (from : ℕ) (deps : List CmdId) (p : ℕ)
    → contains (accept i from deps).0.responses p ≡ true
    → (contains i.responses p ≡ true) ⊎ (from ≡ p) × (i.deps ≡ deps)
unfolding accept
accept-responses i from deps p m = elim (Bool-cases (i.deps == deps && contains i.replicas from)) [
  | inr bad ↦ inl (ground arith)
  | inl ok ↦ elim (Bool-cases (eqb from p)) [
    | inl e ↦ inr (ground (arith, eqb_iff from p), ground (arith, list_beq_iff i.deps deps))
    | inr e ↦ inl (ground (arith, HashSet.contains-insert from p i.responses))
  ]
]

accept_same :
    (i : Instance) (from : ℕ) (deps : List CmdId)
    → ((accept i from deps).0.deps ≡ i.deps) × ((accept i from deps).0.replicas ≡ i.replicas)
unfolding accept
accept_same i from deps = (ground arith, ground arith)

replicas-on_response :
    (hash : CmdId → ℕ → ℕ) (h : Host) (q : Quorum) (from : ℕ) (m : Response) (i : Instance)
    (id : CmdId)
    → replicas hash h (on_response q from m i).0 id ≡ replicas hash h q id
unfolding on_response replicas
replicas-on_response hash h q from m i id = elim (Bool-cases (accept i from m.deps).1) [
  | inl yes_ ↦ rw yes_ refl
  | inr no_ ↦ rw no_ refl
]

do_nothing-decided : (id : CmdId) (deps : List CmdId) → ¬ (do_nothing ≡ decided id deps)
do_nothing-decided id deps e = cc e

module _ (hash : CmdId → ℕ → ℕ) (h : Host) (q0 : Quorum) where
  -- An instance has the committee of its command, and its responses were received.
  record IsGrounded (calls : List Call) (id : CmdId) (i : Instance) : Type 0 where
    wf : IsWf i
    committee : i.replicas ≡ replicas hash h q0 id
    received : (p : ℕ) → contains i.responses p ≡ true → responded hash h calls p id i.deps ≡ true

  record Grounded (calls : List Call) (q : Quorum) : Type 0 where
    instances : (id : CmdId) (i : Instance) → get id q.instances ≡ some i → IsGrounded calls id i
    committees : (id : CmdId) → replicas hash h q id ≡ replicas hash h q0 id

  IsGrounded-later :
      (call : Call) (calls : List Call) (id : CmdId) (i : Instance)
      → IsGrounded calls id i
      → IsGrounded (call ∷ calls) id i
  IsGrounded-later call calls id i g = record {
    wf = g.wf;
    committee = g.committee;
    received = λ p m. ground (arith, g.received p m);
  }

  IsGrounded-accept :
      (calls : List Call) (from : ℕ) (m : Response) (i : Instance)
      → IsGrounded calls m.cmd_id i
      → IsGrounded (receives from (response m) ∷ calls) m.cmd_id (accept i from m.deps).0
  IsGrounded-accept calls from m i g = record {
    wf = accept-IsWf i from m.deps g.wf;
    committee = (accept_same i from m.deps).1 ∙ g.committee;
    received = λ p n. elim (accept-responses i from m.deps p n) [
      | inl old ↦ ground (arith, g.received p old, (accept_same i from m.deps).0)
      | inr (same, deps) ↦ ground (
        arith,
        (accept_same i from m.deps).0,
        eqb_iff from p,
        cmd_id_beq_iff m.cmd_id m.cmd_id,
        list_beq_iff m.deps (accept i from m.deps).0.deps,
      )
    ];
  }

  step-Grounded :
      (call : Call) (calls : List Call) (q : Quorum)
      → Grounded calls q
      → Grounded (call ∷ calls) (step hash h q call)
  unfolding propose on_message replicas
  step-Grounded (proposes cmd_id deps) calls q g = record {
    instances = λ id i e. elim (Bool-cases (cmd_id == id)) [
      | inl same_ ↦
          let same : cmd_id ≡ id = (cmd_id_beq_iff cmd_id id).0 same_ in
          let fresh : new deps (replicas hash h q cmd_id) ≡ i =
            ground
              (arith, get-insert id cmd_id (new deps (replicas hash h q cmd_id)) q.instances) in
          rw (← fresh) (record {
            wf = record { distinct = tt; members = λ p m. cc };
            committee = g.committees cmd_id ∙ ap (replicas hash h q0) same;
            received = λ p m. cc;
          })
      | inr apart ↦ IsGrounded-later (proposes cmd_id deps) calls id i (
          g.instances id i (
            ground (arith, get-insert id cmd_id (new deps (replicas hash h q cmd_id)) q.instances)))
    ];
    committees = g.committees;
  }
  step-Grounded (receives from (request m)) calls q g = record {
    instances =
        λ id i e. IsGrounded-later (receives from (request m)) calls id i (g.instances id i e);
    committees = g.committees;
  }
  step-Grounded (receives from (response m)) calls q g =
      elim (Option-cases (get m.cmd_id q.instances)) [
        | inl e ↦
            let same : step hash h q (receives from (response m)) ≡ q = ground arith in
            rw same (record {
              instances = λ id i e.
                  IsGrounded-later (receives from (response m)) calls id i (g.instances id i e);
              committees = g.committees;
            })
        | inr (i, e) ↦
            let same : step hash h q (receives from (response m)) ≡ (on_response q from m i).0 =
              ground arith in
            rw same (answered i e)
      ]
    where
      answered :
          (i : Instance)
          → get m.cmd_id q.instances ≡ some i
          → Grounded (receives from (response m) ∷ calls) (on_response q from m i).0
      answered i e = record {
        instances = λ id i' e'. elim (Bool-cases (m.cmd_id == id)) [
          | inl same_ ↦
              let same : m.cmd_id ≡ id = (cmd_id_beq_iff m.cmd_id id).0 same_ in
              let kept : (accept i from m.deps).0 ≡ i' =
                ground (arith, on_response-get q from m i id) in
              rw (← same)
                (rw (← kept) (IsGrounded-accept calls from m i (g.instances m.cmd_id i e)))
          | inr apart ↦
              IsGrounded-later (receives from (response m)) calls id i'
                (g.instances id i' (ground (arith, on_response-get q from m i id)))
        ];
        committees = λ id. replicas-on_response hash h q from m i id ∙ g.committees id;
      }

  run-Grounded : (calls : List Call) → q0.instances ≡ [] → Grounded calls (run hash h q0 calls)
  unfolding get
  run-Grounded [] e = record { instances = λ id i got. cc (e, got); committees = λ id. refl }
  run-Grounded (call ∷ calls) e =
      step-Grounded call calls (run hash h q0 calls) (run-Grounded calls e)

  on_response-decides :
      (calls : List Call) (q : Quorum) (from : ℕ) (m : Response) (i : Instance) (id : CmdId)
      (deps : List CmdId)
      → Grounded calls q
      → get m.cmd_id q.instances ≡ some i
      → IsDistinct (replicas hash h q0 id)
      → (on_response q from m i).1 ≡ decided id deps
      → ((p : ℕ)
          → contains (replicas hash h q0 id) p ≡ true
          → responded hash h (receives from (response m) ∷ calls) p id deps ≡ true)
        × (get id (on_response q from m i).0.instances ≡ none)
  unfolding on_response
  on_response-decides calls q from m i id deps g e distinct e' =
      elim (Bool-cases (accept i from m.deps).1) [
        | inr no_ ↦ absurd (do_nothing-decided id deps (ground arith))
        | inl yes_ ↦
            let told : decided m.cmd_id (accept i from m.deps).0.deps ≡ decided id deps =
              ground arith in
            let same : m.cmd_id ≡ id = ground arith in
            let kept : i.deps ≡ deps = ground (arith, (accept_same i from m.deps).0) in
            let grounded = g.instances m.cmd_id i e in
            let committee : i.replicas ≡ replicas hash h q0 id =
              grounded.committee ∙ ap (replicas hash h q0) same in
            let (agreed, member, everyone) =
              (accept_iff i from m.deps grounded.wf (rw committee distinct)).0.0 yes_ in
            (
              λ p inside. ground (
                arith,
                everyone p (rw committee inside),
                grounded.received p,
                cmd_id_beq_iff m.cmd_id id,
                list_beq_iff m.deps deps,
              ),
              ground (arith, on_response-get q from m i id, cmd_id_beq_iff m.cmd_id id),
            )
      ]

  -- Starting without instances and after any sequence of proposals and messages, a response that
  -- makes the component decide a command with dependencies is the last that was missing: every
  -- replica of the committee of the command, when it has no duplicates, has responded to the
  -- command with exactly these dependencies, and the instance is gone.
  pub decided_by_committee :
      (calls : List Call) (from : ℕ) (m : Response) (id : CmdId) (deps : List CmdId)
      → q0.instances ≡ []
      → IsDistinct (replicas hash h q0 id)
      → (on_message (run hash h q0 calls) from (response m)).2 ≡ decided id deps
      → ((p : ℕ)
          → contains (replicas hash h q0 id) p ≡ true
          → responded hash h (receives from (response m) ∷ calls) p id deps ≡ true)
        × (get id (run hash h q0 (receives from (response m) ∷ calls)).instances ≡ none)
  unfolding on_message
  decided_by_committee calls from m id deps none_yet distinct e' =
      let q : Quorum = run hash h q0 calls in
      let g : Grounded calls q = run-Grounded calls none_yet in
      elim (Option-cases (get m.cmd_id q.instances)) [
        | inl e ↦ ground arith
        | inr (i, e) ↦
            let same : (on_message q from (response m))
                ≡ ((on_response q from m i).0, [], (on_response q from m i).1) =
              ground arith in
            let (everyone, gone) =
              on_response-decides calls q from m i id deps g e distinct (ground (arith, same)) in
            (everyone, ground (arith, same, gone))
      ]
