-- ===== src/Client.antt =====
-- crates/client/src/lib.rs: command identifiers with their derived order, and commands.
use blsmr.Prelude.{ℕ, ◌≡◌, ◌↔◌, Bool, true, ◌&&◌, ◌||◌, arith, Eq, ltb, eqb, Option, some, ◌>>=◌}

pub record CmdId : Type 0 where
  pub pid : ℕ
  pub id : ℕ

pub record Command : Type 0 where
  pub id : CmdId
  pub key : ℕ

-- The derived `PartialEq` compares the fields.
abbrev pub cmd_id_beq : CmdId → CmdId → Bool
cmd_id_beq a b = eqb a.pid b.pid && eqb a.id b.id

pub cmd_id_beq_iff : (a b : CmdId) → (cmd_id_beq a b ≡ true) ↔ (a ≡ b)
cmd_id_beq_iff a b = ground arith

instance abbrev pub cmd_id_eq : Eq CmdId
cmd_id_eq = record { beq = cmd_id_beq; beq_iff = cmd_id_beq_iff }

-- The derived `Ord` is lexicographic: the replica first, then the counter.
abbrev pub cmd_id_lt : CmdId → CmdId → Bool
cmd_id_lt a b = ltb a.pid b.pid || eqb a.pid b.pid && ltb a.id b.id

-- `create_cmd_for_key`, from the identifiers that the simulator hands out.
unfoldable pub create_cmd_for_key : ℕ → ℕ → ℕ → Command
create_cmd_for_key pid unique_id key = record {
  id = record { pid = pid; id = unique_id };
  key = key;
}

-- `create_cmd`, where `choose n` is what `choose` makes of the keys below `n`, none if there are none.
-- `expect` panics on `none`.
unfoldable pub create_cmd : ℕ → ℕ → (ℕ → Option ℕ) → ℕ → Option Command
unfolding create_cmd_for_key
create_cmd pid unique_id choose key_count = do
  key ← choose key_count
  some (create_cmd_for_key pid unique_id key)

unfoldable pub conflicts_with : Command → Command → Bool
conflicts_with c other = eqb c.key other.key
