-- ===== src/Voice/Game.antt =====
-- src/foundation.h, GameHost: what src/voice.cpp asks of the game.
use source2root.Base.{ℕ, Bool, true, false, Option}
use source2root.Base.Text.{ℤ}
use source2root.Player.{Player}

-- KeelResult: the codes that the voice code tells apart, and the others.
pub data KeelResult : Type 0 where
  done not_found invalid_argument engine_failure : KeelResult
  other : ℕ → KeelResult

abbrev pub is_done : KeelResult → Bool
is_done KeelResult.done = true
is_done _ = false

abbrev pub is_not_found : KeelResult → Bool
is_not_found KeelResult.not_found = true
is_not_found _ = false

-- The game, with its state `H`. Three calls read it; SetListening changes it and may throw (none).
pub record Host (H : Type 0) : Type 0 where
  pub lookup_player : ℤ → H → KeelResult × Player
  pub next_player : ℤ → H → KeelResult × Player
  pub get_listening : Player → Player → H → KeelResult × Bool
  pub set_listening : Player → Player → Bool → H → H × Option KeelResult
