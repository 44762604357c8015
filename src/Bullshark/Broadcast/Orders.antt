-- ===== src/Bullshark/Broadcast/Orders.antt =====
-- A certificate may overtake the message that it belongs to.
use blsmr.Prelude.{
  ℕ, ◌≡◌, refl, false, none, some, List, [], ◌∷◌, arith, ◌==◌, eqb, contains, Bool-cases, inl, inr,
}
use blsmr.Map.{Map, get, insert, remove, get-insert}
use blsmr.HashSet
use blsmr.Host.{Host}
use blsmr.Bullshark.Broadcast.{
  MessageId, message_id_eq, message_id_beq_iff, ConsistentBroadcast, on_certificate, on_initiate,
}

remove-insert_new {ℓ} :
    {V : Type ℓ} (id : MessageId) (v : V) (m : Map MessageId V)
    → get id m ≡ none
    → remove id (insert id v m) ≡ m
unfolding get insert remove
remove-insert_new id v [] e = ground (arith, message_id_beq_iff id id)
remove-insert_new id v ((j, w) ∷ m) e = elim (Bool-cases (j == id)) [
  | inl same ↦ absurd (ground (arith, same))
  | inr other ↦ ground (arith, other, remove-insert_new id v m)
]

remove_absent :
    (id : MessageId) (s : List MessageId) → contains s id ≡ false → HashSet.remove id s ≡ s
unfolding HashSet.remove
remove_absent id [] e = refl
remove_absent id (x ∷ s) e = ground (arith, remove_absent id s)

module _ {M : Type 0} where
  -- Of a message of another replica that is not known yet, in either order of arrival: after the
  -- message and its certificate the message is delivered, once, with the second of the two, and the
  -- component is in the state before both.
  pub initiate-certificate_comm :
      (h : Host) (from : ℕ) (id : MessageId) (message : M) (s : ConsistentBroadcast M)
      → eqb id.process_id h.pid ≡ false
      → get id s.messages ≡ none
      → contains s.waiting_certificates id ≡ false
      → let first = on_initiate h from id message s in
        let early = on_certificate id s in
        (first.delivered ≡ none)
        × (early.delivered ≡ none)
        × ((on_certificate id first.state).delivered ≡ some message)
        × ((on_initiate h from id message early.state).delivered ≡ some message)
        × ((on_certificate id first.state).state ≡ s)
        × ((on_initiate h from id message early.state).state ≡ s)
  unfolding on_initiate on_certificate HashSet.insert HashSet.remove
  initiate-certificate_comm h from id message s other new unseen =
      let found = get-insert id id (message, 0) s.messages in
      let same = message_id_beq_iff id id in
      (
        ground (arith, other, unseen),
        ground (arith, new),
        ground (arith, other, unseen, found, same),
        ground (arith, other, new, unseen, same),
        ground (arith, other, unseen, found, same, remove-insert_new id (message, 0) s.messages),
        ground (arith, other, new, unseen, same, remove_absent id s.waiting_certificates),
      )
