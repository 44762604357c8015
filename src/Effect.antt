-- ===== src/Effect.antt =====
-- What a handler asks of the simulator: `dscale::send` and `send_many`, one entry for each
-- receiver, `dscale::broadcast_within_pool` and `dscale::broadcast`, and
-- `dscale::schedule_timer_after`.
use blsmr.Prelude.{ℕ, List, [], ◌∷◌}

pub data Effect (M : Type 0) : Type 0 where
  send : ℕ → M → Effect M
  broadcast : M → Effect M
  timer : ℕ → ℕ → Effect M

-- `dscale::send_many`.
unfoldable pub send_many : {M : Type 0} → List ℕ → M → List (Effect M)
send_many [] message = []
send_many (to ∷ receivers) message = send to message ∷ send_many receivers message
