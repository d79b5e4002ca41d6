-- ===== src/Voice/Tests.antt =====
-- src/voice.cpp at a game with two players.
use source2root.Base.{
  ℕ, zero, suc, ◌+◌, ◌≡◌, refl, Bool, true, false, not, ◌&&◌, some, [], ◌∷◌, ◌==◌,
}
use source2root.Base.Text.{ℤ, pos, negsuc, codes}
use source2root.Player.{Player, slots_key, same_connection}
use source2root.Voice.{Voice, Muters, is_muted}
use source2root.Voice.Game.{Host, KeelResult}
use source2root.Voice.Restore.{
  current_player, current_pair, write, restrict_pair, new_pair, apply_one, apply_rounds,
  restore_all,
}
use source2root.Voice.Filter.{filter, filter_pair, filter-heard}
use source2root.Voice.Control.{release, suspend, set_muted, mute}
use source2root.Voice.Owners.{muted_by_others, release-is_muted}

abbrev player : ℕ → Player
player slot = record {
  slot = pos slot;
  connection = slot + 10;
  steam_id = 0;
  authenticated = false;
  bot = false;
  name = codes "p";
  user_id = pos 1;
  team = pos 2;
  alive = true;
}

abbrev after : ℤ → KeelResult × Player
after (negsuc n) = (KeelResult.done, player 0)
after (pos zero) = (KeelResult.done, player 1)
after (pos (suc n)) = (KeelResult.not_found, player 0)

-- Two players; the state is the last write.
abbrev game : Host Bool
game = record {
  lookup_player = λ slot h. elim slot [
    | pos n ↦ (KeelResult.done, player n)
    | negsuc n ↦ (KeelResult.not_found, player 0)
  ];
  next_player = λ slot h. after slot;
  get_listening = λ r s h. (KeelResult.done, true);
  set_listening = λ r s b h. (b, some KeelResult.done);
}

abbrev voice : Muters → Voice
voice owners = record {
  owners = owners;
  suspended_owners = [];
  suspended = false;
  pairs = [];
  writing = false;
}

abbrev one_mute : Muters
one_mute = (5, (pos 1, player 1) ∷ []) ∷ []

muted_in_game : is_muted (set_muted game 5 (player 1) true true (voice [])).voice (player 1) ≡ true
unfolding is_muted set_muted mute current_player same_connection apply_rounds apply_one new_pair
    restrict_pair current_pair write
muted_in_game = refl

muted : is_muted (voice one_mute) (player 1) ≡ true
unfolding is_muted same_connection
muted = refl

heard : (filter game (pos 1) (pos 0) true true (voice one_mute)).1 ≡ true
unfolding filter filter_pair is_muted same_connection
heard = refl

answered : (filter game (pos 1) (pos 0) true true (voice one_mute)).2 ≡ KeelResult.done
unfolding filter
answered = refl

filter-heard_example :
    (true ≡ true) × (is_muted (voice one_mute) (game.lookup_player (pos 0) true).1 ≡ false)
filter-heard_example =
    filter-heard game (pos 1) (pos 0) true true (voice one_mute) refl heard answered

release-is_muted_example :
    is_muted (release game 5 true (voice one_mute)).voice (player 1)
    ≡ (not (5 == 0) && muted_by_others 5 (player 1) one_mute)
release-is_muted_example = release-is_muted game 5 true (voice one_mute) (player 1)

suspended : (suspend game true (voice one_mute)).success ≡ true
unfolding suspend restore_all
suspended = refl
