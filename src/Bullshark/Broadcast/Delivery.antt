-- ===== src/Bullshark/Broadcast/Delivery.antt =====
-- What a delivered message and a certificate rest on, over any sequence of calls.
use blsmr.Prelude.{
  ℕ, ◌+◌, ◌≤◌, ◌≡◌, refl, inl, inr, Bool, true, false, some, List, [], ◌∷◌, arith, ◌==◌, eqb,
  if◌then◌else◌, any, contains, Bool-cases, Option-cases,
}
use blsmr.Map.{get}
use blsmr.Map.Entries.{Entries, Entries-insert, Entries-get, Entries-remove, Entries-mono}
use blsmr.HashSet
use blsmr.Host.{Host}
use blsmr.Bullshark.Broadcast.{
  MessageId, message_id_eq, message_id_beq_iff, BcbMessage, initiate, signature, certificate,
  ConsistentBroadcast, reliably_broadcast, on_certificate, on_initiate, on_signature, on_message,
}

-- What happens to the component: it broadcasts, or it receives.
pub data Call (M : Type 0) : Type 0 where
  broadcasts : (message_id : ℕ) → M → Call M
  receives : (from : ℕ) → BcbMessage M → Call M

module _ {M : Type 0} (h : Host) where
  abbrev pub step : ConsistentBroadcast M → Call M → ConsistentBroadcast M
  step s (broadcasts message_id message) = (reliably_broadcast h message_id message s).0
  step s (receives from message) = (on_message h from message s).state

  -- The calls, the last one first.
  abbrev pub run : ConsistentBroadcast M → List (Call M) → ConsistentBroadcast M
  run s [] = s
  run s (call ∷ calls) = step (run s calls) call

  abbrev is_certificate : MessageId → Call M → Bool
  is_certificate id (receives from (certificate _ j)) = j == id
  is_certificate id _ = false

  -- A certificate for the identifier has arrived.
  abbrev pub certified : List (Call M) → MessageId → Bool
  certified calls id = any (is_certificate id) calls

  -- The message was broadcast under the identifier, here or by a replica whose message arrived.
  pub data Offered (id : MessageId) (message : M) : List (Call M) → Type 0 where
    own :
        {calls : List (Call M)} (message_id : ℕ)
        → id ≡ record { process_id = h.pid; message_id = message_id }
        → Offered id message (broadcasts message_id message ∷ calls)
    arrived :
        {calls : List (Call M)} (from : ℕ)
        → Offered id message (receives from (initiate id message) ∷ calls)
    earlier :
        {calls : List (Call M)} (call : Call M)
        → Offered id message calls
        → Offered id message (call ∷ calls)

  abbrev signs : MessageId → Call M → Bool
  signs id (receives from (signature j)) = j == id
  signs id _ = false

  -- The signatures for the identifier that have arrived.
  abbrev pub signatures : List (Call M) → MessageId → ℕ
  signatures [] id = 0
  signatures (call ∷ calls) id = (if signs id call then 1 else 0) + signatures calls id

  abbrev pub Known : List (Call M) → MessageId → M × ℕ → Type 0
  Known calls id (message, count) = Offered id message calls × (count ≤ signatures calls id)

  pub record Grounded (calls : List (Call M)) (s : ConsistentBroadcast M) : Type 0 where
    pub messages : Entries (Known calls) s.messages
    pub waiting :
        (id : MessageId) → contains s.waiting_certificates id ≡ true → certified calls id ≡ true

  Grounded-later :
      (call : Call M) (calls : List (Call M)) (s : ConsistentBroadcast M)
      → Grounded calls s
      → Grounded (call ∷ calls) s
  Grounded-later call calls s g = record {
    messages =
        Entries-mono (Known calls) (Known (call ∷ calls)) s.messages
          (λ id (message, count) k. (earlier call k.0, ground (arith, k.1))) g.messages;
    waiting = λ id m. ground (arith, g.waiting id m);
  }

  on_certificate-Grounded :
      (calls : List (Call M)) (from validators : ℕ) (id : MessageId) (s : ConsistentBroadcast M)
      → Grounded calls s
      → Grounded (receives from (certificate validators id) ∷ calls) (on_certificate id s).state
  unfolding on_certificate
  on_certificate-Grounded calls from validators id s g =
      let call : Call M = receives from (certificate validators id) in
      let later = Grounded-later call calls s g in
      elim (Option-cases (get id s.messages)) [
        | inl e ↦
            rw (on_certificate, e)
              (record {
                messages = later.messages;
                waiting = λ j m.
                    ground
                      (arith, HashSet.contains-insert id j s.waiting_certificates, g.waiting j);
              })
        | inr ((message, count), e) ↦
            rw (on_certificate, e)
              (record {
                messages = Entries-remove (Known (call ∷ calls)) id s.messages later.messages;
                waiting = later.waiting;
              })
      ]

  on_initiate-Grounded :
      (calls : List (Call M)) (from : ℕ) (id : MessageId) (message : M) (s : ConsistentBroadcast M)
      → Grounded calls s
      → Grounded
          (receives from (initiate id message) ∷ calls)
          (on_initiate h from id message s).state
  unfolding on_initiate
  on_initiate-Grounded calls from id message s g =
      let call : Call M = receives from (initiate id message) in
      let later = Grounded-later call calls s g in
      elim (Bool-cases (eqb id.process_id h.pid)) [
        | inl mine ↦ rw mine later
        | inr other ↦ elim (Bool-cases (contains s.waiting_certificates id)) [
          | inl waits ↦
              rw (other, waits)
                (record {
                  messages = later.messages;
                  waiting = λ j m.
                      ground
                        (arith, HashSet.contains-remove id j s.waiting_certificates, g.waiting j);
                })
          | inr new ↦
              rw (other, new)
                (record {
                  messages =
                      Entries-insert (Known (call ∷ calls)) id (message, 0) s.messages
                        (arrived from, omega arith) later.messages;
                  waiting = later.waiting;
                })
        ]
      ]

  on_signature-Grounded :
      (calls : List (Call M)) (from : ℕ) (id : MessageId) (s : ConsistentBroadcast M)
      → Grounded calls s
      → Grounded (receives from (signature id) ∷ calls) (on_signature id s).state
  unfolding on_signature
  on_signature-Grounded calls from id s g =
      let call : Call M = receives from (signature id) in
      let later = Grounded-later call calls s g in
      elim (Option-cases (get id s.messages)) [
        | inl e ↦ rw (on_signature, e) later
        | inr ((message, count), e) ↦
            let known = Entries-get (Known calls) s.messages id (message, count) g.messages e in
            rw (on_signature, e)
              (record {
                messages =
                    Entries-insert (Known (call ∷ calls)) id (message, count + 1) s.messages
                      (earlier call known.0, ground (arith, known.1, message_id_beq_iff id id))
                      later.messages;
                waiting = later.waiting;
              })
      ]

  step-Grounded :
      (call : Call M) (calls : List (Call M)) (s : ConsistentBroadcast M)
      → Grounded calls s
      → Grounded (call ∷ calls) (step s call)
  unfolding reliably_broadcast on_message
  step-Grounded (broadcasts message_id message) calls s g =
      let call : Call M = broadcasts message_id message in
      let id : MessageId = record { process_id = h.pid; message_id = message_id } in
      let later = Grounded-later call calls s g in
      record {
        messages =
            Entries-insert (Known (call ∷ calls)) id (message, 0) s.messages
              (own message_id refl, omega arith) later.messages;
        waiting = later.waiting;
      }
  step-Grounded (receives from (certificate validators id)) calls s g =
      on_certificate-Grounded calls from validators id s g
  step-Grounded (receives from (initiate id message)) calls s g =
      on_initiate-Grounded calls from id message s g
  step-Grounded (receives from (signature id)) calls s g = on_signature-Grounded calls from id s g

  pub run-Grounded :
      (s : ConsistentBroadcast M) (calls : List (Call M))
      → s.messages ≡ []
      → s.waiting_certificates ≡ []
      → Grounded calls (run s calls)
  run-Grounded s [] e e' = record { messages = rw e tt; waiting = λ id m. cc (e', m) }
  run-Grounded s (call ∷ calls) e e' =
      step-Grounded call calls (run s calls) (run-Grounded s calls e e')

  -- Starting empty, after any sequence of broadcasts and received messages: a message is delivered
  -- only if it was broadcast under one identifier, here or by a replica whose broadcast has arrived,
  -- and a certificate for that identifier has arrived, the message in hand included.
  pub delivered_certified :
      (s : ConsistentBroadcast M) (calls : List (Call M)) (from : ℕ) (m : BcbMessage M)
      (message : M)
      → s.messages ≡ []
      → s.waiting_certificates ≡ []
      → (on_message h from m (run s calls)).delivered ≡ some message
      → (id : MessageId) × Offered id message (receives from m ∷ calls)
        × (certified (receives from m ∷ calls) id ≡ true)
  unfolding on_message on_certificate on_initiate on_signature
  delivered_certified s calls from (certificate validators id) message e e' d =
      let g = run-Grounded s calls e e' in
      elim (Option-cases (get id (run s calls).messages)) [
        | inl none_ ↦ absurd (ground (arith, none_))
        | inr ((m, count), found) ↦
            let known =
              Entries-get (Known calls) (run s calls).messages id (m, count) g.messages found in
            let same : m ≡ message = ground (arith, found) in
            (
              id,
              rw (← same) (earlier (receives from (certificate validators id)) known.0),
              ground (arith, message_id_beq_iff id id),
            )
      ]
  delivered_certified s calls from (initiate id m) message e e' d =
      let g = run-Grounded s calls e e' in
      elim (Bool-cases (eqb id.process_id h.pid)) [
        | inl mine ↦ absurd (ground (arith, mine))
        | inr other ↦ elim (Bool-cases (contains (run s calls).waiting_certificates id)) [
          | inr new ↦ absurd (ground (arith, other, new))
          | inl waits ↦
              let same : m ≡ message = ground (arith, other, waits) in
              (id, rw (← same) (arrived from), ground (arith, g.waiting id waits))
        ]
      ]
  delivered_certified s calls from (signature id) message e e' d =
      elim (Option-cases (get id (run s calls).messages)) [
        | inl none_ ↦ absurd (ground (arith, none_))
        | inr (found, e1) ↦ absurd (ground (arith, e1))
      ]
