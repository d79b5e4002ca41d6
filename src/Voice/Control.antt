-- ===== src/Voice/Control.antt =====
-- src/voice.cpp: the operations of the voice control.
use source2root.Base.{
  ℕ, ◌&&◌, ◌||◌, Bool, true, false, not, none, some, List, [], ◌∷◌, ◌++◌, if◌then◌else◌, ◌==◌,
  is_nil,
}
use source2root.Base.Text.{ℤ}
use source2root.Base.Table.{lookup, put, without, nat_key}
use source2root.Player.{Player, int_eq, int_key, slots_key}
use source2root.Voice.Game.{Host, is_done, is_not_found}
use source2root.Voice.{Voice, Muters, Pair, removed, leave}
use source2root.Voice.Restore.{Work, Operation, begin_work, failure, current_player, apply, restore}

-- owners_[owner][player.slot] = player
abbrev pub record_mute : ℕ → Player → Muters → Muters
record_mute owner player owners =
    put owner
      (put player.slot player (elim (lookup owner owners) [ none ↦ [] | some players ↦ players ]))
      owners

-- The player goes from the owner's, and the owner where no player is left.
abbrev pub forget_mute : ℕ → Player → Muters → Muters
forget_mute owner player owners = elim (lookup owner owners) [
  | none ↦ owners
  | some players ↦
      let left = without player.slot players in
      if is_nil left then without owner owners else put owner left owners
]

abbrev pub with_voice : {H : Type 0} → Voice → Work H → Work H
with_voice v w = record w { voice = v }

-- Release: the owners that stay, and the mutes that go. Owner 0 is every owner.
unfoldable pub kept_owners : ℕ → Muters → Muters
kept_owners owner [] = []
kept_owners owner ((id, players) ∷ rest) =
    let others = kept_owners owner rest in
    if not (owner == 0) && not (id == owner) then (id, players) ∷ others else others

unfoldable pub released : ℕ → Muters → List (ℕ × Player)
released owner [] = []
released owner ((id, players) ∷ rest) =
    let others = released owner rest in
    if not (owner == 0) && not (id == owner) then others else each id players ++ others
  where
    each : ℕ → List (ℤ × Player) → List (ℕ × Player)
    each id [] = []
    each id (sp ∷ more) = (id, sp.1) ∷ each id more

unfoldable pub remove_all : List (ℕ × Player) → Voice → Voice
remove_all [] v = v
remove_all (op ∷ rest) v = remove_all rest (removed op.0 op.1 v)

-- Disconnected
unfoldable pub disconnected : ℤ → ℕ → Voice → Voice
disconnected slot connection v = record v {
  suspended_owners = leave slot connection v.suspended_owners;
  owners = leave slot connection v.owners;
  pairs = stay v.pairs;
}
  where
    gone : Player → Bool
    gone p = int_eq p.slot slot && p.connection == connection

    stay : List ((ℤ × ℤ) × Pair) → List ((ℤ × ℤ) × Pair)
    stay [] = []
    stay (kp ∷ rest) =
        let others = stay rest in
        if gone kp.1.receiver || gone kp.1.sender then others else kp ∷ others

module _ {H : Type 0} (host : Host H) where
  -- Set, where the player is to be muted and is there
  unfoldable pub mute : ℕ → Player → Work H → Work H
  mute owner player w =
      let (result, listening) = host.get_listening player player w.game in
      let checked = current_player host w.game player in
      if not (is_done result)
      then failure Operation.control_unavailable result w
      else if is_not_found checked
      then failure Operation.player_gone checked w
      else if not (is_done checked)
      then failure Operation.connection_lookup checked w
      else apply host player
          (with_voice (record w.voice { owners = record_mute owner player w.voice.owners }) w)

  unfoldable pub unmute : ℕ → Player → Work H → Work H
  unmute owner player w = restore host owner (some player) (
      with_voice
        (removed owner player (record w.voice { owners = forget_mute owner player w.voice.owners }))
        w)

  -- Set
  unfoldable pub set_muted : ℕ → Player → Bool → H → Voice → Work H
  set_muted owner player muted h v =
      let current = current_player host h player in
      if is_not_found current
      then failure Operation.player_gone current (begin_work h v)
      else if not (is_done current)
      then failure Operation.connection_lookup current (begin_work h v)
      else if muted
      then mute owner player (begin_work h v)
      else unmute owner player (begin_work h v)

  -- Release
  unfoldable pub release : ℕ → H → Voice → Work H
  release owner h v =
      let v1 =
        if owner == 0
        then record v { suspended_owners = []; suspended = false }
        else record v { suspended_owners = without owner v.suspended_owners } in
      let v2 =
        remove_all (released owner v.owners) (record v1 { owners = kept_owners owner v.owners }) in
      restore host owner none (begin_work h v2)

  -- Refresh, one owner's players: those that stay, the senders to apply by slot, and the errors
  unfoldable pub check_players :
      List (ℤ × Player)
      → List (ℤ × Player)
      → Work H
      → List (ℤ × Player) × List (ℤ × Player) × Work H
  check_players [] senders w = ([], senders, w)
  check_players ((slot, p) ∷ rest) senders w =
      let result = current_player host w.game p in
      let senders1 = if is_done result then put slot p senders else senders in
      let w1 =
        if is_done result || is_not_found result
        then w
        else failure Operation.connection_lookup result w in
      let (kept, senders', w') = check_players rest senders1 w1 in
      (if is_not_found result then kept else (slot, p) ∷ kept, senders', w')

  -- Refresh, all the owners; one without players goes.
  unfoldable pub check_owners :
      Muters → List (ℤ × Player) → Work H → Muters × List (ℤ × Player) × Work H
  check_owners [] senders w = ([], senders, w)
  check_owners ((owner, players) ∷ rest) senders w =
      let (kept, senders', w') = check_players players senders w in
      let (others, senders'', w'') = check_owners rest senders' w' in
      (if is_nil kept then others else (owner, kept) ∷ others, senders'', w'')

  unfoldable pub apply_all : List (ℤ × Player) → Work H → Work H
  apply_all [] w = w
  apply_all (sp ∷ rest) w = apply_all rest (apply host sp.1 w)

  -- Refresh
  unfoldable pub refresh : H → Voice → Work H
  refresh h v =
      let (owners, senders, w) = check_owners v.owners [] (begin_work h v) in
      apply_all senders (restore host 0 none (with_voice (record v { owners = owners }) w))

  -- Suspend: where the restoration fails, the mutes are in force again, and its own error is told.
  unfoldable pub suspend : H → Voice → Work H
  suspend h v =
      let again = restore host 0 none (begin_work h v) in
      let opened = restore host 0 none (begin_work h (record v { owners = [] })) in
      let retry = refresh opened.game (record opened.voice { owners = v.owners }) in
      if v.suspended
      then again
      else if opened.success
      then with_voice (record opened.voice { suspended_owners = v.owners; suspended = true }) opened
      else record opened { game = retry.game; voice = retry.voice }

  -- Resume
  unfoldable pub resume : H → Voice → Work H
  resume h v = refresh h (
      if v.suspended
      then record v { owners = v.suspended_owners; suspended_owners = []; suspended = false }
      else v)
