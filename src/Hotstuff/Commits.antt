-- ===== src/Hotstuff/Commits.antt =====
-- What committing a node counts, and when it panics.
use blsmr.Prelude.{
  ℕ, suc, zero, ◌+◌, ◌-◌, ◌<◌, ◌≤◌, ◌≡◌, refl, sym, ◌∙◌, ap, subst, ◌⊎◌, ◌↔◌, inl, inr, Option,
  none, some, List, [], ◌∷◌, ◌++◌, arith, ltb, length, length-append, Bool-cases, Option-cases,
  ◌>>=◌, nat_eq,
}
use blsmr.Map.{get}
use blsmr.Host.{Host}
use blsmr.Submission.{Ledger, SubmittedCommand, count_block, mark_all, mark_committed}
use blsmr.Hotstuff.{
  Node, Heap, Hotstuff, parent, commit, execute, update, raise_leaf, raise_lock, collect_garbage,
}

-- Every node that is alive is one above its parent, if that is alive too.
pub record IsChain (heap : Heap) : Type 0 where
  pub lower :
      (id : ℕ) (node above : Node)
      → get id heap ≡ some node
      → parent heap node ≡ some above
      → above.height + 1 ≡ node.height
  pub named : (id : ℕ) (node : Node) → get id heap ≡ some node → node.id ≡ id

parent-live :
    (heap : Heap) (node above : Node)
    → IsChain heap
    → parent heap node ≡ some above
    → get above.id heap ≡ some above
unfolding parent
parent-live heap node above chain e = elim (Option-cases node.parent) [
  | inl none_ ↦ absurd (cc (e, none_))
  | inr (id, e1) ↦
      let found : get id heap ≡ some above = ground (arith, e1) in
      subst (λ x. get x heap ≡ some above) (sym (chain.named id above found)) found
]

abbrev pub count_blocks : Host → List Node → Ledger → Ledger
count_blocks h [] l = l
count_blocks h (node ∷ blocks) l = count_blocks h blocks (count_block h node.commands l)

-- The nodes from the first one above the height up to the given one, all of them alive.
pub data Above (heap : Heap) (height : ℕ) : Node → List Node → Type 0 where
  reached : {node : Node} → node.height ≤ height → Above heap height node []
  through :
      {node above : Node} {blocks : List Node}
      → height < node.height
      → parent heap node ≡ some above
      → Above heap height above blocks
      → Above heap height node (blocks ++ node ∷ [])

count_blocks-snoc :
    (h : Host) (blocks : List Node) (node : Node) (l : Ledger)
    → count_blocks h (blocks ++ node ∷ []) l ≡ count_block h node.commands (count_blocks h blocks l)
count_blocks-snoc h [] node l = refl
count_blocks-snoc h (b ∷ blocks) node l =
    count_blocks-snoc h blocks node (count_block h b.commands l)

mark_all-block_commits :
    (h : Host) (commands : List SubmittedCommand) (l : Ledger)
    → (mark_all h commands l).block_commits ≡ l.block_commits
unfolding mark_all mark_committed
mark_all-block_commits h [] l = refl
mark_all-block_commits h (c ∷ commands) l =
    mark_all-block_commits h commands (mark_committed h c l) ∙ ground arith

pub count_blocks-length :
    (h : Host) (blocks : List Node) (l : Ledger)
    → (count_blocks h blocks l).block_commits ≡ l.block_commits + length blocks
unfolding count_block
count_blocks-length h [] l = omega arith
count_blocks-length h (b ∷ blocks) l = omega (
  arith,
  count_blocks-length h blocks (count_block h b.commands l),
  mark_all-block_commits h b.commands (record l { block_commits = l.block_commits + 1 }),
)

module _ (h : Host) (heap : Heap) (height : ℕ) where
  commit-Above :
      (fuel : ℕ) (node : Node) (l l' : Ledger)
      → commit h heap height fuel node l ≡ some l'
      → (blocks : List Node) × Above heap height node blocks × (l' ≡ count_blocks h blocks l)
  unfolding commit
  commit-Above zero node l l' e = cc
  commit-Above (suc fuel) node l l' e = elim (Bool-cases (ltb height node.height)) [
    | inr below ↦ ([], reached (ground (arith, below)), ground (arith, below))
    | inl higher ↦ elim (Option-cases (parent heap node)) [
      | inl none_ ↦ absurd (ground (arith, higher, none_))
      | inr (above, e1) ↦ elim (Option-cases (commit h heap height fuel above l)) [
        | inl none_ ↦ absurd (ground (arith, higher, e1, none_))
        | inr (l1, e2) ↦
            let (blocks, chain, counted) = commit-Above fuel above l l1 e2 in
            (
              blocks ++ node ∷ [],
              through (ground (arith, higher)) e1 chain,
              ground (arith, higher, e1, e2, counted, count_blocks-snoc h blocks node l),
            )
      ]
    ]
  ]

  Above-commit :
      (fuel : ℕ) (node : Node) (blocks : List Node) (l : Ledger)
      → IsChain heap
      → get node.id heap ≡ some node
      → node.height < fuel
      → Above heap height node blocks
      → commit h heap height fuel node l ≡ some (count_blocks h blocks l)
  unfolding commit
  Above-commit zero node blocks l chain live lt a = absurd (omega arith)
  Above-commit (suc fuel) node _ l chain live lt (reached le) = ground arith
  Above-commit (suc fuel) node _ l chain live lt
        (through {above = above} {blocks = blocks} higher e a) =
      let next =
        Above-commit fuel above blocks l chain (parent-live heap node above chain e)
          (omega (arith, chain.lower node.id node above live e)) a in
      ground (arith, next, higher, e, count_blocks-snoc h blocks node l)

  Above-length :
      (node : Node) (blocks : List Node)
      → IsChain heap
      → get node.id heap ≡ some node
      → Above heap height node blocks
      → length blocks ≡ node.height - height
  Above-length node _ chain live (reached le) = omega arith
  Above-length node _ chain live (through {above = above} {blocks = blocks} higher e a) = omega (
    arith,
    length-append blocks (node ∷ []),
    Above-length above blocks chain (parent-live heap node above chain e) a,
    chain.lower node.id node above live e,
  )

  -- Committing a node that is alive, in a heap whose nodes are each one above their parents, returns
  -- exactly if all its ancestors above the height of the last commit are alive. It counts these and
  -- the node, the oldest first and as many as there are heights between, and marks their commands.
  pub commit_iff :
      (node : Node) (l l' : Ledger)
      → IsChain heap
      → get node.id heap ≡ some node
      → (commit h heap height (suc node.height) node l ≡ some l') ↔ (
          (blocks : List Node) × Above heap height node blocks
          × (l' ≡ count_blocks h blocks l)
          × (l'.block_commits ≡ l.block_commits + (node.height - height)))
  commit_iff node l l' chain live = (
    λ e.
        let (blocks, a, counted) = commit-Above (suc node.height) node l l' e in
        (
          blocks,
          a,
          counted,
          rw counted (
              omega (arith, count_blocks-length h blocks l, Above-length node blocks chain live a)),
        ),
    λ (blocks, a, counted, _).
        Above-commit (suc node.height) node blocks l chain live (omega arith) a
        ∙ ap some (sym counted),
  )

abbrev pub great_grandparent : Heap → Node → Option Node
great_grandparent heap node = (parent heap node >>= parent heap) >>= parent heap

great_grandparent-live :
    (heap : Heap) (node block : Node)
    → IsChain heap
    → great_grandparent heap node ≡ some block
    → get block.id heap ≡ some block
great_grandparent-live heap node block chain e =
    elim (Option-cases (parent heap node >>= parent heap)) [
      | inl none_ ↦ absurd (ground (arith, none_))
      | inr (above, e1) ↦ parent-live heap above block chain (ground (arith, e1))
    ]

module _ {Q : Type 0} (h : Host) (heap : Heap) where
  raise-b_exec :
      (grandparent : Option Node) (node : Node) (q : Hotstuff Q)
      → (raise_lock grandparent (raise_leaf node q)).b_exec ≡ q.b_exec
  unfolding raise_lock raise_leaf
  raise-b_exec none node q = ground arith
  raise-b_exec (some grandparent) node q = ground arith

  -- What an update that commits makes of `b_exec` and of the ledger.
  update-executes :
      (node block : Node) (q q' : Hotstuff Q) (l l' : Ledger)
      → great_grandparent heap node ≡ some block
      → update h heap node (q, l) ≡ some (q', l')
      → (q'.b_exec ≡ block) × (commit h heap q.b_exec.height (suc block.height) block l ≡ some l')
  unfolding update execute collect_garbage
  update-executes node block q q' l l' e u =
      let raised : Hotstuff Q = raise_lock (parent heap node >>= parent heap) (raise_leaf node q) in
      let same = raise-b_exec (parent heap node >>= parent heap) node q in
      elim (Option-cases (commit h heap raised.b_exec.height (suc block.height) block l)) [
        | inl none_ ↦ absurd (ground (arith, e, none_))
        | inr (l1, e1) ↦
            let last : l1 ≡ l' = ground (arith, e, e1) in
            (ground (arith, e, e1), rw (← same) (e1 ∙ ap some last))
      ]

  -- An update at a node returns whenever the great-grandparent, if that is alive, can be committed.
  update-executed :
      (node block : Node) (q : Hotstuff Q) (l l' : Ledger)
      → great_grandparent heap node ≡ some block
      → commit h heap q.b_exec.height (suc block.height) block l ≡ some l'
      → (q' : Hotstuff Q) × (update h heap node (q, l) ≡ some (q', l'))
  unfolding update execute
  update-executed node block q l l' e c =
      let raised : Hotstuff Q = raise_lock (parent heap node >>= parent heap) (raise_leaf node q) in
      let same = raise-b_exec (parent heap node >>= parent heap) node q in
      let done : commit h heap raised.b_exec.height (suc block.height) block l ≡ some l' =
        rw same c in
      (collect_garbage (record raised { b_exec = block }), ground (arith, e, done))

  -- Where a node has no great-grandparent alive, an update at it returns, and commits nothing. Where
  -- it has one, the update returns exactly if all ancestors of the great-grandparent above the
  -- height of the last committed node are alive. It has then committed exactly these and the
  -- great-grandparent, if that is itself above this height, the oldest first, each counted once, and
  -- the great-grandparent is the last committed node from then on.
  pub update_commits :
      (node : Node) (q : Hotstuff Q) (l : Ledger)
      → IsChain heap
      → ((great_grandparent heap node ≡ none)
          × ((q' : Hotstuff Q) × (update h heap node (q, l) ≡ some (q', l))
              × (q'.b_exec ≡ q.b_exec)))
        ⊎ ((block : Node) × (great_grandparent heap node ≡ some block)
            × ((l' : Ledger)
                → ((q' : Hotstuff Q) × (update h heap node (q, l) ≡ some (q', l'))
                    × (q'.b_exec ≡ block))
                  ↔ ((blocks : List Node) × Above heap q.b_exec.height block blocks
                      × (l' ≡ count_blocks h blocks l)
                      × (l'.block_commits ≡ l.block_commits + (block.height - q.b_exec.height)))))
  unfolding update
  update_commits node q l chain = elim (Option-cases (great_grandparent heap node)) [
    | inl e ↦
        let grandparent : Option Node = parent heap node >>= parent heap in
        inl (
          e,
          (
            raise_lock grandparent (raise_leaf node q),
            ground (arith, e),
            raise-b_exec grandparent node q,
          ),
        )
    | inr (block, e) ↦
        let live = great_grandparent-live heap node block chain e in
        inr (
          block,
          e,
          λ l'. (
            λ (q', u, _).
                (commit_iff h heap q.b_exec.height block l l' chain live).0
                  (update-executes node block q q' l l' e u).1,
            λ above.
                let (q', u) =
                  update-executed node block q l l' e
                    ((commit_iff h heap q.b_exec.height block l l' chain live).1 above) in
                (q', u, (update-executes node block q q' l l' e u).0),
          ),
        )
  ]
