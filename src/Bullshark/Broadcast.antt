-- ===== src/Bullshark/Broadcast.antt =====
-- crates/bullshark/src/consistent_broadcast.rs: a message is delivered with a certificate, which its
-- sender broadcasts when enough replicas have signed it.
pub mod Delivery
pub mod Certificates
pub mod Orders
use blsmr.Prelude.{
  ℕ, ◌+◌, ◌-◌, ◌*◌, ◌/◌, ◌%◌, ◌≡◌, ◌↔◌, Bool, true, false, ◌&&◌, Option, none, some, List, [], ◌∷◌,
  arith, Eq, ◌==◌, eqb, if◌then◌else◌, contains,
}
use blsmr.Map.{Map, get, insert, remove}
use blsmr.HashSet
use blsmr.Host.{Host}
use blsmr.Effect.{Effect, send, broadcast}

pub record MessageId : Type 0 where
  pub process_id : ℕ
  pub message_id : ℕ

abbrev pub message_id_beq : MessageId → MessageId → Bool
message_id_beq a b = eqb a.process_id b.process_id && eqb a.message_id b.message_id

pub message_id_beq_iff : (a b : MessageId) → (message_id_beq a b ≡ true) ↔ (a ≡ b)
message_id_beq_iff a b = ground arith

instance abbrev pub message_id_eq : Eq MessageId
message_id_eq = record { beq = message_id_beq; beq_iff = message_id_beq_iff }

-- `M` is the type of the messages that are broadcast.
pub data BcbMessage (M : Type 0) : Type 0 where
  initiate : MessageId → M → BcbMessage M
  signature : MessageId → BcbMessage M
  certificate : ℕ → MessageId → BcbMessage M

pub record ConsistentBroadcast (M : Type 0) : Type 0 where
  pub messages : Map MessageId (M × ℕ)
  pub waiting_certificates : List MessageId
  pub proc_num : ℕ

-- What a handler returns: the state, the effects, and the message that is delivered.
pub record Outcome (M : Type 0) : Type 0 where
  pub state : ConsistentBroadcast M
  pub effects : List (Effect (BcbMessage M))
  pub delivered : Option M

-- The subtraction wraps around before the number of replicas is known.
unfoldable pub quorum_size : ℕ → ℕ
quorum_size proc_num =
    2 * ((proc_num + 0x1_0000_0000_0000_0000 - 1) % 0x1_0000_0000_0000_0000 / 3) + 1

module _ {M : Type 0} where
  -- `Message::virtual_size`, given that of the messages.
  unfoldable pub virtual_size : (M → ℕ) → BcbMessage M → ℕ
  virtual_size size (initiate id message) = 128 + size message
  virtual_size size (signature id) = 64
  virtual_size size (certificate validators id) = 128 + validators / 8

  -- `ByzantineConsistentBroadcast::default`.
  abbrev pub default : ConsistentBroadcast M
  default = record { messages = []; waiting_certificates = []; proc_num = 0 }

  unfoldable pub on_start : ℕ → ConsistentBroadcast M → ConsistentBroadcast M
  on_start proc_num s = record s { proc_num = proc_num }

  -- `message_id` is what `unique_id` returns.
  unfoldable pub reliably_broadcast :
      Host → ℕ → M → ConsistentBroadcast M → ConsistentBroadcast M × List (Effect (BcbMessage M))
  reliably_broadcast h message_id message s =
      let id : MessageId = record { process_id = h.pid; message_id = message_id } in
      (
        record s { messages = insert id (message, 0) s.messages },
        broadcast (initiate id message) ∷ [],
      )

  unfoldable pub on_certificate : MessageId → ConsistentBroadcast M → Outcome M
  on_certificate id s = elim (get id s.messages) [
    | none ↦ record {
      state = record s { waiting_certificates = HashSet.insert id s.waiting_certificates };
      effects = [];
      delivered = none;
    }
    | some (message, _) ↦ record {
      state = record s { messages = remove id s.messages };
      effects = [];
      delivered = some message;
    }
  ]

  unfoldable pub on_initiate : Host → ℕ → MessageId → M → ConsistentBroadcast M → Outcome M
  on_initiate h from id message s =
      if eqb id.process_id h.pid
      then record { state = s; effects = send from (signature id) ∷ []; delivered = none }
      else if contains s.waiting_certificates id
      then record {
        state = record s { waiting_certificates = HashSet.remove id s.waiting_certificates };
        effects = [];
        delivered = some message;
      }
      else record {
        state = record s { messages = insert id (message, 0) s.messages };
        effects = send from (signature id) ∷ [];
        delivered = none;
      }

  unfoldable pub on_signature : MessageId → ConsistentBroadcast M → Outcome M
  unfolding quorum_size
  on_signature id s = elim (get id s.messages) [
    | none ↦ record { state = s; effects = []; delivered = none }
    | some (message, signatures) ↦ record {
      state = record s { messages = insert id (message, signatures + 1) s.messages };
      effects =
          if eqb (signatures + 1) (quorum_size s.proc_num)
          then broadcast (certificate s.proc_num id) ∷ []
          else [];
      delivered = none;
    }
  ]

  unfoldable pub on_message : Host → ℕ → BcbMessage M → ConsistentBroadcast M → Outcome M
  unfolding on_certificate on_initiate on_signature
  on_message h from (certificate _ id) s = on_certificate id s
  on_message h from (initiate id message) s = on_initiate h from id message s
  on_message h from (signature id) s = on_signature id s
