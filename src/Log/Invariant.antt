-- ===== src/Log/Invariant.antt =====
-- What holds of the command log between calls of its operations.
use blsmr.Prelude.{ℕ, ◌≡◌, Bool, true, false, Option, none, some, contains, IsDistinct, eqb, nat_eq}
use blsmr.Client.{CmdId, Command, cmd_id_eq}
use blsmr.Map.{get}
use blsmr.Log.{Phase, Entry, CmdLog, bucket, is_stable}

abbrev pub is_commit : Phase → Bool
is_commit Phase.commit = true
is_commit _ = false

-- The entry is in the phase `Commit`.
abbrev pub is_committing : CmdLog → CmdId → Bool
is_committing log id = elim (get id log.entries) [
  | none ↦ false
  | some entry ↦ is_commit entry.phase
]

abbrev pub has_key : Option Command → ℕ → Bool
has_key none key = false
has_key (some cmd) key = eqb cmd.key key

-- The entry holds a command with the key.
abbrev pub is_filed : CmdLog → CmdId → ℕ → Bool
is_filed log id key = elim (get id log.entries) [
  | none ↦ false
  | some entry ↦ has_key entry.cmd key
]

-- `pending_commit` holds the committed entries, an entry is neither stable nor executed, a command
-- stands under its own identifier, and a bucket holds the entries whose commands have its key.
pub record IsWf (log : CmdLog) : Type 0 where
  pub pending : (id : CmdId) → contains log.pending_commit id ≡ is_committing log id
  pub distinct : IsDistinct log.pending_commit
  pub live :
      (id : CmdId) (entry : Entry) → get id log.entries ≡ some entry → is_stable entry.phase ≡ false
  pub idle : (id : CmdId) (entry : Entry) → get id log.entries ≡ some entry → entry.executed ≡ false
  pub apart : (id : CmdId) → contains log.stable id ≡ true → get id log.entries ≡ none
  pub named :
      (id : CmdId) (entry : Entry) (cmd : Command)
      → get id log.entries ≡ some entry
      → entry.cmd ≡ some cmd
      → cmd.id ≡ id
  pub buckets : (key : ℕ) (id : CmdId) → contains (bucket log key) id ≡ is_filed log id key
  pub once : (key : ℕ) → IsDistinct (bucket log key)
