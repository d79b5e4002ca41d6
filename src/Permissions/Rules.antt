-- ===== src/Permissions/Rules.antt =====
-- src/permissions.cpp: what the rules about targets promise.
use source2root.Base.{◌<◌, ◌≡◌, ◌⊎◌, ◌&&◌, ◌||◌, ◌==◌, not, true, false, some, arith, is_nil}
use source2root.Base.Text.{Bytes}
use source2root.Identity.{valid_permission}
use source2root.Player.{Player, same_connection, same_connection_symm}
use source2root.Permissions.{
  Permissions, authenticated, find, immunity, allows, can_target, can_target_identity,
}

-- Two players never may act on one another, but for a player on itself.
pub can_target_asymm :
    (admins : Permissions) (a b : Player) (p q : Bytes)
    → can_target admins (some a) b p ≡ true
    → can_target admins (some b) a q ≡ true
    → (same_connection a b ≡ true) × (a.steam_id ≡ b.steam_id)
unfolding can_target
can_target_asymm admins a b p q h k = ground (arith, same_connection_symm b a)

-- A caller that passes is an authenticated player with the permission, and the target is connected
-- and, but for a bot, authenticated.
pub can_target_needs :
    (admins : Permissions) (a b : Player) (p : Bytes)
    → can_target admins (some a) b p ≡ true
    → (authenticated a ≡ true)
      × (allows admins a p ≡ true)
      × ((b.bot ≡ true) ⊎ (authenticated b ≡ true))
      × ((same_connection a b ≡ true) ⊎ (immunity admins b < immunity admins a))
unfolding can_target
can_target_needs admins a b p h = ground arith

-- For a target who is authenticated, a calling player may act on it by the rule for players exactly
-- where it may by the rule for stored identities and does not have the target's identity on another
-- connection.
pub can_target-can_target_identity :
    (admins : Permissions) (a b : Player) (p : Bytes)
    → authenticated b ≡ true
    → can_target admins (some a) b p ≡ (
        can_target_identity admins (some a) b.steam_id p
        && (same_connection a b || not (a.steam_id == b.steam_id)))
unfolding can_target can_target_identity immunity find authenticated
can_target-can_target_identity admins a b p h = ground arith

-- Whoever is not authenticated has the empty permission and no other.
pub allows-not_authenticated :
    (admins : Permissions) (a : Player) (p : Bytes)
    → authenticated a ≡ false
    → allows admins a p ≡ (valid_permission p && is_nil p)
unfolding allows find
allows-not_authenticated admins a p h = ground arith
