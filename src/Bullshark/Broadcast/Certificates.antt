-- ===== src/Bullshark/Broadcast/Certificates.antt =====
-- What a certificate rests on, over any sequence of calls.
use blsmr.Prelude.{
  ℕ, ◌+◌, ◌≤◌, ◌≡◌, inl, inr, some, List, [], ◌∷◌, arith, eqb, contains, subst, ap, eqb_iff,
  Bool-cases, Option-cases,
}
use blsmr.Map.{get}
use blsmr.Map.Entries.{Entries-get}
use blsmr.Host.{Host}
use blsmr.Effect.{Effect, send, broadcast}
use blsmr.Bullshark.Members.{Among}
use blsmr.Bullshark.Broadcast.{
  MessageId, message_id_eq, message_id_beq_iff, BcbMessage, initiate, signature, certificate,
  ConsistentBroadcast, quorum_size, reliably_broadcast, on_certificate, on_initiate, on_signature,
  on_message,
}
use blsmr.Bullshark.Broadcast.Delivery.{
  Call, broadcasts, receives, run, signatures, Known, run-Grounded,
}

module _ {M : Type 0} (h : Host) where
  -- What a call sends.
  abbrev pub effects_of : ConsistentBroadcast M → Call M → List (Effect (BcbMessage M))
  effects_of s (broadcasts message_id message) = (reliably_broadcast h message_id message s).1
  effects_of s (receives from message) = (on_message h from message s).effects

  -- A certificate is among the effects.
  abbrev pub Sends : ℕ → MessageId → List (Effect (BcbMessage M)) → Type 0
  Sends validators id effects = Among (broadcast (certificate validators id)) effects

  on_signature-certificate :
      (s : ConsistentBroadcast M) (validators : ℕ) (j id : MessageId)
      → Sends validators id (on_signature j s).effects
      → (message : M) × (count : ℕ) × (get j s.messages ≡ some (message, count))
        × (count + 1 ≡ quorum_size s.proc_num)
        × (j ≡ id)
  unfolding on_signature
  on_signature-certificate s validators j id among = elim (Option-cases (get j s.messages)) [
    | inl e ↦
        let silent : (on_signature j s).effects ≡ [] = ground (arith, e) in
        absurd (subst (Sends validators id) silent among)
    | inr ((message, count), e) ↦ elim (Bool-cases (eqb (count + 1) (quorum_size s.proc_num))) [
      | inr few ↦
          let silent : (on_signature j s).effects ≡ [] = ground (arith, e, few) in
          absurd (subst (Sends validators id) silent among)
      | inl full ↦
          let sent : (on_signature j s).effects ≡ broadcast (certificate s.proc_num j) ∷ [] =
            ground (arith, e, full) in
          (
            message,
            count,
            e,
            (eqb_iff (count + 1) (quorum_size s.proc_num)).0 full,
            elim (subst (Sends validators id) sent among) [
              | inl same ↦ ground arith
              | inr none_ ↦ absurd none_
            ],
          )
    ]
  ]

  signs_only :
      (from validators : ℕ) (j id : MessageId)
      → ¬ Sends validators id (send from (signature j) ∷ [])
  signs_only from validators j id (inl same) = cc same
  signs_only from validators j id (inr none_) = none_

  on_initiate-certificate :
      (s : ConsistentBroadcast M) (from validators : ℕ) (j id : MessageId) (m : M)
      → ¬ Sends validators id (on_initiate h from j m s).effects
  unfolding on_initiate
  on_initiate-certificate s from validators j id m among =
      let sent : List (Effect (BcbMessage M)) = (on_initiate h from j m s).effects in
      elim (Bool-cases (eqb j.process_id h.pid)) [
        | inl mine ↦
            let e : sent ≡ send from (signature j) ∷ [] = ground (arith, mine) in
            signs_only from validators j id (subst (Sends validators id) e among)
        | inr other ↦ elim (Bool-cases (contains s.waiting_certificates j)) [
          | inl waits ↦
              let e : sent ≡ [] = ground (arith, other, waits) in
              subst (Sends validators id) e among
          | inr new ↦
              let e : sent ≡ send from (signature j) ∷ [] = ground (arith, other, new) in
              signs_only from validators j id (subst (Sends validators id) e among)
        ]
      ]

  -- Starting empty, after any sequence of broadcasts and received messages: if a certificate is among
  -- what a further call sends, then this call receives a signature for the certificate's identifier,
  -- and as many of these signatures as the quorum has replicas have arrived, this one included.
  pub certificate_signed :
      (s : ConsistentBroadcast M) (calls : List (Call M)) (call : Call M) (validators : ℕ)
      (id : MessageId)
      → s.messages ≡ []
      → s.waiting_certificates ≡ []
      → Sends validators id (effects_of (run h s calls) call)
      → ((from : ℕ) × (call ≡ receives from (signature id)))
        × (quorum_size (run h s calls).proc_num ≤ signatures h (call ∷ calls) id)
  unfolding reliably_broadcast on_message on_certificate on_initiate
  certificate_signed s calls (broadcasts message_id m) validators id e e' (inl same) =
      absurd (cc same)
  certificate_signed s calls (broadcasts message_id m) validators id e e' (inr none_) = absurd none_
  certificate_signed s calls (receives from (certificate v j)) validators id e e' among =
      let silent : (on_certificate j (run h s calls)).effects ≡ [] =
        ground (arith, Option-cases (get j (run h s calls).messages)) in
      absurd (subst (Sends validators id) silent among)
  certificate_signed s calls (receives from (initiate j m)) validators id e e' among =
      absurd (on_initiate-certificate (run h s calls) from validators j id m among)
  certificate_signed s calls (receives from (signature j)) validators id e e' among =
      let g = run-Grounded h s calls e e' in
      let (m, count, found, full, same) =
        on_signature-certificate (run h s calls) validators j id among in
      let known =
        Entries-get (Known h calls) (run h s calls).messages j (m, count) g.messages found in
      (
        (from, ap (λ i. receives from (signature i)) same),
        rw (← same) (ground (arith, full, known.1, message_id_beq_iff j j)),
      )
