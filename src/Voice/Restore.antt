-- ===== src/Voice/Restore.antt =====
-- src/voice.cpp: the calls that write a pair's state to the game.
use source2root.Base.{
  ℕ, zero, suc, ◌&&◌, ◌||◌, Bool, true, false, not, Option, none, some, List, [], ◌∷◌,
  if◌then◌else◌, ◌==◌,
}
use source2root.Base.Text.{ℤ, negsuc, int_le}
use source2root.Base.Table.{lookup, put, without}
use source2root.Player.{Player, same_connection, slots_key}
use source2root.Voice.Game.{Host, KeelResult, is_done, is_not_found}
use source2root.Voice.{Voice, Pair, same, is_muted}

-- What an error's text names
pub data Operation : Type 0 where
  player_gone control_unavailable receiver_lookup receiver_list connection_lookup : Operation
  state_lookup restriction restoration : Operation

-- The game and the voice state; the error, where there is one; and whether all went well.
pub record Work (H : Type 0) : Type 0 where
  pub game : H
  pub voice : Voice
  pub error : Option (Operation × KeelResult)
  pub success : Bool

module _ {H : Type 0} where
  -- error.clear()
  abbrev pub begin_work : H → Voice → Work H
  begin_work h v = record { game = h; voice = v; error = none; success = true }

  -- Failure: the first error is kept.
  abbrev pub failure : Operation → KeelResult → Work H → Work H
  failure op result w = record w {
    error = elim w.error [ none ↦ some (op, result) | some e ↦ some e ];
    success = false;
  }

  abbrev pub with_pairs : List ((ℤ × ℤ) × Pair) → Work H → Work H
  with_pairs pairs w = record w { voice = record w.voice { pairs = pairs } }

module _ {H : Type 0} (host : Host H) where
  -- Current of a player
  unfoldable pub current_player : H → Player → KeelResult
  current_player h player =
      let (result, current) = host.lookup_player player.slot h in
      if is_done result && not (same_connection player current)
      then KeelResult.not_found
      else result

  -- Current of a pair
  unfoldable pub current_pair : H → Pair → KeelResult
  current_pair h pair =
      let receiver = current_player h pair.receiver in
      let sender = current_player h pair.sender in
      if is_not_found receiver || is_not_found sender
      then KeelResult.not_found
      else if not (is_done receiver)
      then receiver
      else sender

  -- Write. `writing` is true during SetListening, where Filter answers at once, and is as before
  -- when Write returns.
  unfoldable pub write : Pair → Bool → H → H × KeelResult
  write pair listening h =
      let current = current_pair h pair in
      let (h', answer) = host.set_listening pair.receiver pair.sender listening h in
      if not (is_done current)
      then (h, current)
      else (h', elim answer [ none ↦ KeelResult.engine_failure | some result ↦ result ])

  -- Apply, for one receiver, once its pair is there: nobody hears a sender who is muted.
  unfoldable pub restrict_pair : Pair → Work H → Work H
  restrict_pair pair w =
      let (h', result) = write pair false w.game in
      let w' = record w { game = h' } in
      if not (is_muted w.voice pair.sender)
      then w
      else if not (is_done result) && not (is_not_found result)
      then failure Operation.restriction result w'
      else w'

  -- Apply, for one receiver without a pair: what it is heard to ask is read.
  unfoldable pub new_pair : Pair → Work H → Work H
  new_pair pair w =
      let (result, requested) = host.get_listening pair.receiver pair.sender w.game in
      let pair' = record pair { requested = requested } in
      let again = current_pair w.game pair' in
      if not (is_done result)
      then failure Operation.state_lookup result w
      else if is_not_found again
      then w
      else if not (is_done again)
      then failure Operation.connection_lookup again w
      else restrict_pair pair'
          (with_pairs (put (pair.receiver.slot, pair.sender.slot) pair' w.voice.pairs) w)

  -- Apply, the body of its loop for one receiver
  unfoldable pub apply_one : Player → Player → Work H → Work H
  apply_one sender receiver w =
      let pair : Pair = record {
        receiver = receiver;
        sender = sender;
        requested = false;
        restore_owner = 0;
      } in
      let result = current_pair w.game pair in
      let known : Work H = elim (lookup (receiver.slot, sender.slot) w.voice.pairs) [
        | none ↦ new_pair pair w
        | some existing ↦ if same existing pair then restrict_pair existing w else new_pair pair w
      ] in
      if is_not_found result
      then w
      else if not (is_done result)
      then failure Operation.connection_lookup result w
      else known

  -- Apply, its loop: `n` receivers more are accepted, those after slot `after`.
  unfoldable pub apply_rounds : ℕ → ℤ → Player → Work H → Work H
  apply_rounds zero after sender w =
      let (next, receiver) = host.next_player after w.game in
      if is_not_found next
      then w
      else if not (is_done next)
      then failure Operation.receiver_lookup next w
      else failure Operation.receiver_list KeelResult.invalid_argument w
  apply_rounds (suc n) after sender w =
      let (next, receiver) = host.next_player after w.game in
      let rest = apply_rounds n receiver.slot sender (apply_one sender receiver w) in
      if is_not_found next
      then w
      else if not (is_done next)
      then failure Operation.receiver_lookup next w
      else if int_le receiver.slot after
      then failure Operation.receiver_list KeelResult.invalid_argument w
      else rest

  -- Apply
  abbrev pub apply : Player → Work H → Work H
  apply sender w = apply_rounds 128 (negsuc 0) sender w

  -- Restore, for one pair that is to be restored and still waits
  unfoldable pub restore_pair : (ℤ × ℤ) → Pair → Work H → Work H
  restore_pair key pair w =
      let current = current_pair w.game pair in
      let (h', written) = write pair pair.requested w.game in
      let result = if is_done current then written else current in
      let w' = record w { game = if is_done current then h' else w.game } in
      let forgotten : Work H = elim (lookup key w.voice.pairs) [
        | none ↦ w'
        | some p ↦
            if same p pair && (if p.requested then pair.requested else not pair.requested)
            then with_pairs (without key w.voice.pairs) w'
            else w'
      ] in
      if is_done result || is_not_found result
      then forgotten
      else failure Operation.restoration result w'

  -- Restore, the guards of its loop; no sender is every sender.
  unfoldable pub restore_one : ℕ → Option Player → ((ℤ × ℤ) × Pair) → Work H → Work H
  restore_one owner sender (key, pair) w =
      let other : Bool = elim sender [
        | none ↦ false
        | some s ↦ not (same_connection pair.sender s)
      ] in
      let waiting : Work H = elim (lookup key w.voice.pairs) [
        | none ↦ w
        | some p ↦ if same p pair then restore_pair key pair w else w
      ] in
      if is_muted w.voice pair.sender
        || (not (owner == 0) && not (pair.restore_owner == owner))
        || other
      then w
      else waiting

  unfoldable pub restore_all : ℕ → Option Player → List ((ℤ × ℤ) × Pair) → Work H → Work H
  restore_all owner sender [] w = w
  restore_all owner sender (kp ∷ rest) w =
      restore_all owner sender rest (restore_one owner sender kp w)

  -- Restore, over a copy of the pairs
  abbrev pub restore : ℕ → Option Player → Work H → Work H
  restore owner sender w = restore_all owner sender w.voice.pairs w
