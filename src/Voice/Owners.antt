-- ===== src/Voice/Owners.antt =====
-- src/voice.cpp: who stays muted, whatever the game answers.
use source2root.Base.{
  ℕ, ◌≡◌, ap, refl, ◌∙◌, inl, inr, arith, ◌&&◌, ◌||◌, Bool, true, false, not, Option, none, List,
  [], ◌∷◌, any, ◌==◌, Option-cases, Bool-cases, if-either, is_nil,
}
use source2root.Base.Text.{ℤ}
use source2root.Base.Table.{Key, lookup, without}
use source2root.Player.{Player, same_connection, slots_key, int_key}
use source2root.Voice.Game.{Host}
use source2root.Voice.{Voice, Muters, Pair, is_muted, mutes, removed, leave, without_connection}
use source2root.Voice.Restore.{Work, begin_work, restore_pair, restore_one, restore_all, restore}
use source2root.Voice.Control.{release, kept_owners, released, remove_all, suspend, disconnected}

module _ {H : Type 0} (host : Host H) where
  restore_pair-owners :
      (key : ℤ × ℤ) (pair : Pair) (w : Work H)
      → (restore_pair host key pair w).voice.owners ≡ w.voice.owners
  unfolding restore_pair
  restore_pair-owners key pair w = ground arith

  restore_one-owners :
      (o : ℕ) (s : Option Player) (kp : (ℤ × ℤ) × Pair) (w : Work H)
      → (restore_one host o s kp w).voice.owners ≡ w.voice.owners
  unfolding restore_one
  restore_one-owners o s (key, pair) w = ground (arith, restore_pair-owners key pair w)

  restore_all-owners :
      (o : ℕ) (s : Option Player) (ps : List ((ℤ × ℤ) × Pair)) (w : Work H)
      → (restore_all host o s ps w).voice.owners ≡ w.voice.owners
  unfolding restore_all
  restore_all-owners o s [] w = refl
  restore_all-owners o s (kp ∷ ps) w =
      restore_all-owners o s ps (restore_one host o s kp w) ∙ restore_one-owners o s kp w

is_muted-owners : (v v' : Voice) (p : Player) → v'.owners ≡ v.owners → is_muted v' p ≡ is_muted v p
unfolding is_muted
is_muted-owners v v' p e = ap (any (mutes p)) e

-- Removed and Restore change no owner.
removed-owners : (o : ℕ) (s : Player) (v : Voice) → (removed o s v).owners ≡ v.owners
unfolding removed
removed-owners o s v = ground arith

remove_all-owners : (l : List (ℕ × Player)) (v : Voice) → (remove_all l v).owners ≡ v.owners
unfolding remove_all
remove_all-owners [] v = refl
remove_all-owners (op ∷ l) v =
    remove_all-owners l (removed op.0 op.1 v) ∙ removed-owners op.0 op.1 v

-- The owners that mute a player, but for one
abbrev pub muted_by_others : ℕ → Player → Muters → Bool
muted_by_others owner p [] = false
muted_by_others owner p (entry ∷ rest) =
    (not (entry.0 == owner) && mutes p entry) || muted_by_others owner p rest

kept_owners-mutes :
    (owner : ℕ) (p : Player) (owners : Muters)
    → any (mutes p) (kept_owners owner owners)
      ≡ (not (owner == 0) && muted_by_others owner p owners)
unfolding kept_owners
kept_owners-mutes owner p [] = ground arith
kept_owners-mutes owner p ((id, players) ∷ rest) = ground (arith, kept_owners-mutes owner p rest)

module _ {H : Type 0} (host : Host H) where
  release-owners :
      (owner : ℕ) (h : H) (v : Voice)
      → (release host owner h v).voice.owners ≡ kept_owners owner v.owners
  unfolding release
  release-owners owner h v =
      restore_all-owners host owner none _ _ ∙ remove_all-owners (released owner v.owners) _

  -- Release of one owner ends that owner's mutes, and keeps every other's; release of all, owner 0,
  -- ends all; whatever the game answers.
  pub release-is_muted :
      (owner : ℕ) (h : H) (v : Voice) (p : Player)
      → is_muted (release host owner h v).voice p
        ≡ (not (owner == 0) && muted_by_others owner p v.owners)
  unfolding is_muted
  release-is_muted owner h v p = rw (release-owners owner h v) (kept_owners-mutes owner p v.owners)

  -- Where the mutes were not suspended and Suspend succeeds, nobody is muted, the mutes are kept for
  -- Resume, and the control is suspended.
  pub suspend-is_muted :
      (h : H) (v : Voice) (p : Player)
      → v.suspended ≡ false
      → (suspend host h v).success ≡ true
      → (is_muted (suspend host h v).voice p ≡ false)
        × ((suspend host h v).voice.suspended_owners ≡ v.owners)
        × ((suspend host h v).voice.suspended ≡ true)
  unfolding suspend is_muted
  suspend-is_muted h v p off good =
      let opened : Work H = restore host 0 none (begin_work h (record v { owners = [] })) in
      let emptied : opened.voice.owners ≡ [] =
        restore_all-owners host 0 none v.pairs (begin_work h (record v { owners = [] })) in
      ground (arith, off, good, emptied)

lookup-without {ℓ} :
    {K : Type 0} {V : Type ℓ} ⦃key : Key K⦄ (k : K) (m : List (K × V))
    → lookup k (without k m) ≡ none
lookup-without k [] = refl
lookup-without ⦃key⦄ k ((j, w) ∷ m) = elim (Bool-cases (key.equal j k)) [
  | inl e ↦ rw e (lookup-without k m)
  | inr e ↦ rw (e, e) (lookup-without k m)
]

-- The player of a connection that has left its slot is muted by no owner.
without_connection-mutes :
    (p : Player) (owner : ℕ) (players : List (ℤ × Player))
    → mutes p (owner, without_connection p.slot p.connection players) ≡ false
unfolding same_connection
without_connection-mutes p owner players = elim (Option-cases (lookup p.slot players)) [
  | inl e ↦ rw (e, e) refl
  | inr (q, e) ↦ elim (Bool-cases (q.connection == p.connection)) [
    | inl c ↦ rw (e, c, lookup-without p.slot players) refl
    | inr c ↦ rw (e, c, e, c) (ground arith)
  ]
]

leave-mutes :
    (p : Player) (owners : Muters) → any (mutes p) (leave p.slot p.connection owners) ≡ false
leave-mutes p [] = refl
leave-mutes p ((owner, players) ∷ rest) =
    if-either (λ l. any (mutes p) l ≡ false)
      (is_nil (without_connection p.slot p.connection players)) (λ _. leave-mutes p rest)
      λ _. rw (without_connection-mutes p owner players) (leave-mutes p rest)

-- Once a connection has left, nobody mutes it, in force or suspended.
pub disconnected-is_muted :
    (p : Player) (v : Voice)
    → (is_muted (disconnected p.slot p.connection v) p ≡ false)
      × (any (mutes p) (disconnected p.slot p.connection v).suspended_owners ≡ false)
unfolding is_muted disconnected
disconnected-is_muted p v = (leave-mutes p v.owners, leave-mutes p v.suspended_owners)
