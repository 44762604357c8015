-- ===== src/Host.antt =====
-- What the handlers read of the simulator while they run: `dscale::pid()`, `dscale::now()`,
-- `dscale::list_pool(..)`, the subtraction of two `Jiffies`, and the order in which a hash set of
-- command identifiers is iterated.
use blsmr.Prelude.{ℕ, List, ◌≡◌, contains, IsDistinct}
use blsmr.Client.{CmdId, cmd_id_eq}

pub record Host : Type 0 where
  pub pid : ℕ
  pub now : ℕ
  pub pool : List ℕ
  pub elapsed : ℕ → ℕ → ℕ
  pub iterate : List CmdId → List CmdId

-- Iterating over a hash set meets each member once.
pub record IsIteration (h : Host) : Type 0 where
  pub members : (s : List CmdId) (id : CmdId) → contains (h.iterate s) id ≡ contains s id
  pub once : (s : List CmdId) → IsDistinct s → IsDistinct (h.iterate s)
