-- ===== src/Voice.antt =====
-- src/voice.cpp: players whose voice is withheld from the others, and the state to restore.
pub mod Game
pub mod Restore
pub mod Control
pub mod Filter
pub mod Owners
mod Tests
use source2root.Base.{
  ℕ, ◌&&◌, Bool, true, false, not, Option, none, some, List, [], ◌∷◌, if◌then◌else◌, any, map, ◌==◌,
  is_nil,
}
use source2root.Base.Text.{ℤ}
use source2root.Base.Table.{lookup, put, without}
use source2root.Player.{Player, same_connection, int_key}

-- struct Voice::Pair
pub record Pair : Type 0 where
  pub receiver : Player
  pub sender : Player
  pub requested : Bool
  pub restore_owner : ℕ

-- Pair::Same
abbrev pub same : Pair → Pair → Bool
same a b = same_connection a.receiver b.receiver && same_connection a.sender b.sender

-- std::map<std::uint64_t, std::map<int, Player>>
abbrev pub Muters : Type 0
Muters = List (ℕ × List (ℤ × Player))

-- Voice. `pairs` has its key, the two slots, as one key in another.
pub record Voice : Type 0 where
  pub owners : Muters
  pub suspended_owners : Muters
  pub suspended : Bool
  pub pairs : List ((ℤ × ℤ) × Pair)
  pub writing : Bool

abbrev pub same_as : Player → Option Player → Bool
same_as p none = false
same_as p (some q) = same_connection q p

-- One owner's players, where one of them is this player on this connection
abbrev pub mutes : Player → (ℕ × List (ℤ × Player)) → Bool
mutes p entry = same_as p (lookup p.slot entry.1)

-- Muted
unfoldable pub is_muted : Voice → Player → Bool
is_muted v p = any (mutes p) v.owners

-- Removed
unfoldable pub removed : ℕ → Player → Voice → Voice
removed owner sender v = if is_muted v sender then v else record v {
  pairs =
      map
        (λ kp. (
          kp.0,
          if same_connection kp.1.sender sender
              then record kp.1 { restore_owner = owner }
              else kp.1,
        ))
        v.pairs;
}

abbrev pub without_found : ℤ → ℕ → List (ℤ × Player) → Option Player → List (ℤ × Player)
without_found slot connection players none = players
without_found slot connection players (some p) =
    if p.connection == connection then without slot players else players

-- Disconnected, for one owner: the player in the slot goes where it is this connection.
abbrev pub without_connection : ℤ → ℕ → List (ℤ × Player) → List (ℤ × Player)
without_connection slot connection players =
    without_found slot connection players (lookup slot players)

-- Disconnected, for all the owners; an owner without players goes, too.
abbrev pub leave : ℤ → ℕ → Muters → Muters
leave slot connection [] = []
leave slot connection ((owner, players) ∷ rest) =
    let others = leave slot connection rest in
    let left = without_connection slot connection players in
    if is_nil left then others else (owner, left) ∷ others
