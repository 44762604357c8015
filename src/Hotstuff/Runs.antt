-- ===== src/Hotstuff/Runs.antt =====
-- Runs of a HotStuff replica: the calls of its handlers, with what each reads of its surroundings.
use blsmr.Prelude.{ℕ, Bool, Option, some, List, [], ◌∷◌, ◌>>=◌}
use blsmr.Client.{Command}
use blsmr.Host.{Host}
use blsmr.Hotstuff.{Heap, HsMessage, Run, on_start, on_message, on_timer}

-- `leaf` is the identifier of a node that the handler makes, `next` that of a timer that it sets.
pub data Event : Type 0 where
  starts : Host → (next leaf : ℕ) → Event
  receives : Host → Heap → (leaf : ℕ) → HsMessage → Event
  fires : Host → Command → (next id : ℕ) → Event

module _ {Q : Type 0} (new_quorum : ℕ → Q) (add : Q → Q × Bool) (rotating : Bool) where
  abbrev pub handle : Event → Run Q → Option (Run Q)
  handle (starts h next leaf) r = some (on_start h next leaf r)
  handle (receives h heap leaf m) r = on_message new_quorum add rotating h heap leaf m r
  handle (fires h command next id) r = on_timer h command next id r

  -- The events, the last one first; `none` if one of them panics.
  abbrev pub run : Run Q → List Event → Option (Run Q)
  run r [] = some r
  run r (event ∷ events) = run r events >>= handle event
