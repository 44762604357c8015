-- ===== src/Log/Closure/Walk.antt =====
-- What the two walks share: the stack, and the count of the edges that they can still push.
use blsmr.Prelude.{◌+◌, ◌≤◌, ◌≡◌, refl, false, ◌||◌, some, List, [], ◌∷◌, arith, contains, length}
use blsmr.Client.{CmdId, cmd_id_eq, cmd_id_beq_iff}
use blsmr.Map.{Map, get}
use blsmr.Log.{Entry, entry_deps}
use blsmr.Log.Closure.{extend, unseen_edges}

pub contains-extend :
    (stack ids : List CmdId) (a : CmdId)
    → contains (extend stack ids) a ≡ (contains ids a || contains stack a)
unfolding extend
contains-extend stack [] a = refl
contains-extend stack (id ∷ ids) a = ground (arith, contains-extend (id ∷ stack) ids a)

pub length-extend : (stack ids : List CmdId) → length (extend stack ids) ≡ length stack + length ids
unfolding extend
length-extend stack [] = omega arith
length-extend stack (id ∷ ids) = omega (arith, length-extend (id ∷ stack) ids)

-- Marking an identifier as seen leaves no more edges.
pub unseen_edges_mono :
    (m : Map CmdId Entry) (seen : List CmdId) (id : CmdId)
    → unseen_edges m (id ∷ seen) ≤ unseen_edges m seen
unfolding unseen_edges
unseen_edges_mono [] seen id = omega arith
unseen_edges_mono ((j, entry) ∷ m) seen id = ground (arith, unseen_edges_mono m seen id)

-- Marking an entry as seen takes its own edges off the count.
pub unseen_edges_seen :
    (m : Map CmdId Entry) (seen : List CmdId) (id : CmdId) (entry : Entry)
    → get id m ≡ some entry
    → contains seen id ≡ false
    → unseen_edges m (id ∷ seen) + length (entry_deps entry) ≤ unseen_edges m seen
unfolding unseen_edges get
unseen_edges_seen [] seen id entry h new = ground arith
unseen_edges_seen ((j, e) ∷ m) seen id entry h new = ground (
  arith,
  cmd_id_beq_iff j id,
  cmd_id_beq_iff id j,
  unseen_edges_mono m seen id,
  unseen_edges_seen m seen id entry,
)
