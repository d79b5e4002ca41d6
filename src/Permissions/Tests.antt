-- ===== src/Permissions/Tests.antt =====
-- src/permissions.cpp at concrete players.
use source2root.Base.{ℕ, ◌+◌, ◌≡◌, refl, ◌&&◌, ◌||◌, ◌==◌, not, Bool, true, false, some, [], ◌∷◌}
use source2root.Base.Text.{codes, pos, bytes_eq}
use source2root.Identity.{valid_permission, permission_bytes}
use source2root.Player.{Player, same_connection}
use source2root.Permissions.{
  Permissions, authenticated, find, immunity, allows, can_target, can_target_identity,
}
use source2root.Permissions.Rules.{can_target_asymm, can_target-can_target_identity}

abbrev player : ℕ → ℕ → Bool → Player
player slot account bot = record {
  slot = pos slot;
  connection = slot + 10;
  steam_id = 76561197960265728 + account;
  authenticated = true;
  bot = bot;
  name = codes "p";
  user_id = pos 1;
  team = pos 2;
  alive = true;
}

abbrev admins : Permissions
admins =
    (
      76561197960265729,
      record {
        label = codes "a";
        group = codes "g";
        permissions = codes "admin.kick" ∷ [];
        immunity = 5;
        root = false;
      },
    )
    ∷ []

kick : can_target admins (some (player 0 1 false)) (player 1 2 false) (codes "admin.kick") ≡ true
unfolding can_target authenticated allows find immunity same_connection valid_permission
    permission_bytes bytes_eq
kick = refl

kick_self :
    can_target admins (some (player 0 1 false)) (player 0 1 false) (codes "admin.kick") ≡ true
unfolding can_target authenticated allows find immunity same_connection valid_permission
    permission_bytes bytes_eq
kick_self = refl

can_target_asymm_example :
    (same_connection (player 0 1 false) (player 0 1 false) ≡ true)
    × ((player 0 1 false).steam_id ≡ (player 0 1 false).steam_id)
can_target_asymm_example =
    can_target_asymm admins (player 0 1 false) (player 0 1 false) (codes "admin.kick")
      (codes "admin.kick") kick_self kick_self

target_authenticated : authenticated (player 1 2 false) ≡ true
unfolding authenticated
target_authenticated = refl

-- The identity of the caller on a second connection, where the two rules differ
second_connection : authenticated (player 1 1 false) ≡ true
unfolding authenticated
second_connection = refl

can_target-can_target_identity_example :
    can_target admins (some (player 0 1 false)) (player 1 1 false) (codes "admin.kick") ≡ (
      can_target_identity admins
        (some (player 0 1 false))
        (player 1 1 false).steam_id
        (codes "admin.kick")
      && (same_connection (player 0 1 false) (player 1 1 false)
          || not ((player 0 1 false).steam_id == (player 1 1 false).steam_id)))
can_target-can_target_identity_example =
    can_target-can_target_identity admins (player 0 1 false) (player 1 1 false) (codes "admin.kick")
      second_connection

bot_unknown : authenticated (player 0 1 true) ≡ false
unfolding authenticated
bot_unknown = refl
