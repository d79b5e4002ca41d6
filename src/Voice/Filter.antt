-- ===== src/Voice/Filter.antt =====
-- src/voice.cpp, Voice::Filter: what one player hears of another.
use source2root.Base.{
  ◌≡◌, refl, inl, inr, arith, ◌&&◌, Bool, true, false, not, Option, none, some, List, [], ◌∷◌,
  if◌then◌else◌, Bool-cases, Option-cases,
}
use source2root.Base.Text.{ℤ}
use source2root.Base.Table.{Key, lookup, put}
use source2root.Player.{Player, slots_key}
use source2root.Voice.Game.{Host, KeelResult, is_done}
use source2root.Voice.{Voice, Pair, same, is_muted}

-- The pair that waits for the two, where it is the same two connections
abbrev pub same_pending : (ℤ × ℤ) → Pair → Voice → Option Pair
same_pending key pair v = elim (lookup key v.pairs) [
  | none ↦ none
  | some pending ↦ if same pending pair then some pending else none
]

abbrev pub is_pending : Option Pair → Bool
is_pending none = false
is_pending (some p) = true

-- The body of Filter once both players are found: the voice state, and whether the receiver listens.
unfoldable pub filter_pair : (ℤ × ℤ) → Player → Player → Bool → Voice → Voice × Bool
filter_pair key receiver sender listening v =
    let fresh : Pair = record {
      receiver = receiver;
      sender = sender;
      requested = listening;
      restore_owner = 0;
    } in
    let pending = same_pending key fresh v in
    let muted = is_muted v sender in
    let pair : Pair = elim pending [
      | none ↦ fresh
      | some p ↦ record fresh { restore_owner = p.restore_owner }
    ] in
    if not muted && not (is_pending pending)
    then (v, listening)
    else (record v { pairs = put key pair v.pairs }, if muted then false else listening)

module _ {H : Type 0} (host : Host H) where
  -- Filter
  unfoldable pub filter : ℤ → ℤ → Bool → H → Voice → Voice × Bool × KeelResult
  filter receiver sender listening h v =
      let (found, r) = host.lookup_player receiver h in
      let (found', s) = host.lookup_player sender h in
      let (v', listening') = filter_pair (receiver, sender) r s listening v in
      if v.writing
      then (v, listening, KeelResult.done)
      else if not (is_done found)
      then (v, listening, found)
      else if not (is_done found')
      then (v, listening, found')
      else (v', listening', KeelResult.done)

lookup-put {ℓ} :
    {K : Type 0} {V : Type ℓ} ⦃key : Key K⦄ (k : K) (v : V) (m : List (K × V))
    → lookup k (put k v m) ≡ some v
lookup-put ⦃key⦄ k v [] = let self = (key.equal_iff k k).1 refl in rw self
lookup-put ⦃key⦄ k v ((j, w) ∷ m) = elim (Bool-cases (key.equal j k)) [
  | inl e ↦ let self = (key.equal_iff k k).1 refl in rw (e, self) refl
  | inr e ↦ rw (e, e) (lookup-put k v m)
]

-- In Filter, once both players are found, what is asked for a muted sender is remembered with the two
-- players, and refused.
pub filter_pair-muted :
    (key : ℤ × ℤ) (receiver sender : Player) (listening : Bool) (v : Voice)
    → is_muted v sender ≡ true
    → ((filter_pair key receiver sender listening v).1 ≡ false)
      × ((p : Pair) × (lookup key (filter_pair key receiver sender listening v).0.pairs ≡ some p)
          × (p.requested ≡ listening)
          × (p.sender ≡ sender)
          × (p.receiver ≡ receiver))
unfolding filter_pair
filter_pair-muted key receiver sender listening v h =
    elim (Option-cases (
      same_pending key
        (record { receiver = receiver; sender = sender; requested = listening; restore_owner = 0 })
        v)) [
          | inl e ↦ rw (h, e) (refl, (_, lookup-put key _ v.pairs, refl, refl, refl))
          | inr (p, e) ↦ rw (h, e) (refl, (_, lookup-put key _ v.pairs, refl, refl, refl))
        ]

filter_pair-heard :
    (key : ℤ × ℤ) (receiver sender : Player) (listening : Bool) (v : Voice)
    → (filter_pair key receiver sender listening v).1 ≡ true
    → (listening ≡ true) × (is_muted v sender ≡ false)
unfolding filter_pair
filter_pair-heard key receiver sender listening v h = ground arith

-- Where Filter answers and no write is under way, whoever is heard was to be heard, and is not muted.
pub filter-heard :
    {H : Type 0} (host : Host H) (receiver sender : ℤ) (listening : Bool) (h : H) (v : Voice)
    → v.writing ≡ false
    → (filter host receiver sender listening h v).1 ≡ true
    → (filter host receiver sender listening h v).2 ≡ KeelResult.done
    → (listening ≡ true) × (is_muted v (host.lookup_player sender h).1 ≡ false)
unfolding filter
filter-heard host receiver sender listening h v idle heard answered = ground (
  arith,
  filter_pair-heard (receiver, sender) (host.lookup_player receiver h).1
      (host.lookup_player sender h).1 listening v,
)
