-- ===== src/Permissions.antt =====
-- src/permissions.cpp: administrators, their groups, and who may act on whom.
pub mod Load
pub mod Rules
mod Tests
use source2root.Base.{
  ℕ, ◌&&◌, ◌||◌, Bool, true, false, not, Option, none, some, List, [], ◌∷◌, if◌then◌else◌, ltb,
  ◌==◌, is_nil,
}
use source2root.Base.Text.{Bytes}
use source2root.Base.Table.{lookup, member, nat_key, bytes_key}
use source2root.Identity.{valid_permission, valid_steam_identity}
use source2root.Player.{Player, same_connection, has_slot}

-- struct Permissions::Admin; an immunity is never negative.
pub record Admin : Type 0 where
  pub label : Bytes
  pub group : Bytes
  pub permissions : List Bytes
  pub immunity : ℕ
  pub root : Bool

-- Permissions: admins_
abbrev pub Permissions : Type 0
Permissions = List (ℕ × Admin)

-- Authenticated
pub authenticated : Player → Bool
authenticated p =
    has_slot p
    && not (p.connection == 0)
    && p.authenticated
    && not p.bot
    && valid_steam_identity p.steam_id

-- Permissions::Find
pub find : Permissions → Player → Option Admin
find admins p = if not (authenticated p) then none else lookup p.steam_id admins

-- Permissions::Immunity
pub immunity : Permissions → Player → ℕ
immunity admins p = elim (find admins p) [ none ↦ 0 | some admin ↦ admin.immunity ]

-- Permissions::Allows
pub allows : Permissions → Player → Bytes → Bool
allows admins p permission =
    if not (valid_permission permission)
    then false
    else if is_nil permission
    then true
    else elim (find admins p) [
      | none ↦ false
      | some admin ↦ admin.root || member permission admin.permissions
    ]

-- Permissions::CanTarget; no caller is the server console.
pub can_target : Permissions → Option Player → Player → Bytes → Bool
can_target admins none target permission =
    if not (valid_permission permission) || not (has_slot target) || target.connection == 0
    then false
    else true
can_target admins (some caller) target permission =
    if not (valid_permission permission) || not (has_slot target) || target.connection == 0
    then false
    else if not (authenticated caller) || not (allows admins caller permission)
    then false
    else if not target.bot && not (authenticated target)
    then false
    else if same_connection caller target && caller.steam_id == target.steam_id
    then true
    else ltb (immunity admins target) (immunity admins caller)

-- Permissions::CanTargetIdentity
pub can_target_identity : Permissions → Option Player → ℕ → Bytes → Bool
can_target_identity admins none target permission =
    if not (valid_permission permission) || not (valid_steam_identity target) then false else true
can_target_identity admins (some caller) target permission =
    let target_immunity : ℕ = elim (lookup target admins) [
      | none ↦ 0
      | some admin ↦ admin.immunity
    ] in
    if not (valid_permission permission) || not (valid_steam_identity target)
    then false
    else if not (authenticated caller) || not (allows admins caller permission)
    then false
    else if caller.steam_id == target
    then true
    else ltb target_immunity (immunity admins caller)
