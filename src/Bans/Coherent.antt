-- ===== src/Bans/Coherent.antt =====
-- src/bans.cpp: the memory of the store and its file.
use source2root.Base.{
  ℕ, ◌+◌, ◌≤◌, ◌≡◌, refl, sym, ap, subst, ◌∙◌, Option, none, some, inl, inr, ◌||◌, Bool, true,
  false, not, List, [], ◌∷◌, Result, ok, err, ◌>>◌, throw_if, or_throw, All, arith, if◌then◌else◌,
  ltb, ◌==◌, length, Bool-cases, ltb-false→le,
}
use source2root.Base.Text.{Bytes, bytes_eq, starts_with, codes}
use source2root.Base.Table.{has, put, nat_key}
use source2root.Base.Table.Laws.{Distinct-put, length-put}
use source2root.Identity.{
  IdentityError, parse_steam_identity, valid_steam_identity, steam_spelling, account_spelling,
  number,
}
use source2root.Bans.Utc.{parse_utc}
use source2root.Bans.Store.{
  BanError, Ban, Bans, Entry, Json, safe_text, is_actor, ends_early, account_or, time_or, BanStore,
  Answers, known_contents, read_file, read_expiry, entry_ban, read_bans, parse_bans, max_bytes,
  max_bans, is_shallow,
}
use source2root.Bans.Reload.{IsBan, IsTable, >>=_left}

pub throw_if_passed : (e : BanError) (b : Bool) {u : Unit {0}} → throw_if b e ≡ ok u → b ≡ false
throw_if_passed e true h = absurd (cc h)
throw_if_passed e false h = refl

parse_steam_identity-valid :
    (text : Bytes) (id : ℕ) → parse_steam_identity text ≡ ok id → valid_steam_identity id ≡ true
unfolding parse_steam_identity
parse_steam_identity-valid text id q =
    let (r, w, q1) =
      >>=_left
        (if starts_with (codes "STEAM_") text
          then steam_spelling text
          else if starts_with (codes "[U:") text
          then account_spelling text
          else number text)
        _ q in
    valid_id r id q1
  where
    valid_id :
        (r id : ℕ)
        → (throw_if (not (valid_steam_identity r)) IdentityError.not_individual >> ok r) ≡ ok id
        → valid_steam_identity id ≡ true
    valid_id r id e = elim (Bool-cases (valid_steam_identity r)) [
      | inl h ↦
          (let e' = rw h at e in
            let same : r ≡ id = cc e' in subst (λ k. valid_steam_identity k ≡ true) same h)
      | inr h ↦ absurd (let e' = rw h at e in cc e')
    ]

account_or_lem : (r : Result IdentityError ℕ) (id : ℕ) → account_or r ≡ ok id → r ≡ ok id
account_or_lem (ok a) id e = let same : a ≡ id = cc e in ap ok same
account_or_lem (err x) id e = absurd (cc e)

-- ParseBans takes only bans that hold.
entry_ban-IsBan : (e : Entry) (b : Ban) → entry_ban e ≡ ok b → IsBan b.account b
unfolding entry_ban
entry_ban-IsBan e b q =
    let (id, w, q1) = >>=_left (account_or (parse_steam_identity e.steamid)) _ q in
    let (created, w1, q2) =
      >>=_left (time_or BanError.invalid_time (parse_utc e.created_utc)) _ q1 in
    let (expires, w2, q3) = >>=_left (read_expiry e.expires_utc) _ q2 in
    let (u, fine, q4) =
      >>=_left
        (throw_if
          (ends_early expires created || not (safe_text e.reason 256) || not (is_actor e.actor))
          BanError.invalid_fields)
        _ q3 in
    let same : record {
      account = id;
      created = created;
      expires = expires;
      reason = e.reason;
      actor = e.actor;
    }
        ≡ b =
      cc q4 in
    subst (λ (b : Ban). IsBan b.account b) same
      (record {
        own = refl;
        individual = parse_steam_identity-valid e.steamid id (account_or_lem _ id w);
        fields = throw_if_passed BanError.invalid_fields _ fine;
      })

All-put :
    (k : ℕ) (b : Ban) (m : Bans)
    → IsBan k b
    → All (λ kb. IsBan kb.0 kb.1) m
    → All (λ kb. IsBan kb.0 kb.1) (put k b m)
All-put k b [] h a = (h, tt)
All-put k b ((j, c) ∷ m) h a = elim (Bool-cases (j == k)) [
  | inl q ↦ rw q (h, a.1)
  | inr q ↦ rw q (a.0, All-put k b m h a.1)
]

pub IsTable-put : (k : ℕ) (b : Ban) (m : Bans) → IsBan k b → IsTable m → IsTable (put k b m)
IsTable-put k b m h t = record {
  each_ban = All-put k b m h t.each_ban;
  distinct = Distinct-put k b m t.distinct;
}

read_bans-IsTable :
    (es : List Entry) (t r : Bans)
    → IsTable t
    → read_bans es t ≡ ok r
    → IsTable r × (length r ≤ length t + length es)
unfolding read_bans
read_bans-IsTable [] t r h q = let same : t ≡ r = cc q in rw (sym same) (h, omega arith)
read_bans-IsTable (e ∷ es) t r h q =
    let (b, w, q1) = >>=_left (entry_ban e) _ q in
    let (u, free, q2) = >>=_left (throw_if (has b.account t) BanError.duplicate_account) _ q1 in
    let (table, few) =
      read_bans-IsTable es (put b.account b t) r
        (IsTable-put b.account b t (entry_ban-IsBan e b w) h) q2 in
    (table, omega (arith, few, length-put b.account b t))

module _ (json : Json) where
  pub parse_bans-IsTable :
      (text : Bytes) (bans : Bans)
      → parse_bans json text ≡ ok bans
      → IsTable bans × (length bans ≤ max_bans) × (is_shallow text false false 0 ≡ true)
  unfolding parse_bans
  parse_bans-IsTable text bans q =
      let (u, w, q1) = >>=_left (throw_if (ltb max_bytes (length text)) BanError.too_large) _ q in
      let (u1, deep, q2) =
        >>=_left (throw_if (not (is_shallow text false false 0)) BanError.too_deep) _ q1 in
      let (l, w2, q3) = >>=_left (or_throw (json.decode text) BanError.invalid_json) _ q2 in
      let (u3, many, q4) = >>=_left (throw_if (ltb max_bans (length l)) BanError.too_many) _ q3 in
      let (table, few) = read_bans-IsTable l [] bans (record { each_ban = tt; distinct = tt }) q4 in
      (
        table,
        omega (
          arith,
          few,
          ltb-false→le max_bans (length l) (throw_if_passed BanError.too_many _ many),
        ),
        ground (arith, throw_if_passed BanError.too_deep _ deep),
      )

  -- SaveBans goes on only with the contents in memory.
  pub known_contents_held :
      (a : Answers) (s : BanStore) (old : Bytes)
      → known_contents json a s ≡ ok old
      → s.contents ≡ some old
  known_contents_held a s old known =
      let (held, w, q) = >>=_left (or_throw s.contents BanError.not_loaded) _ known in
      let (previous, w1, q1) = >>=_left (read_file a.reads s.file) _ q in
      let (u, w2, q2) =
        >>=_left (throw_if (not (bytes_eq previous held)) BanError.changed_outside) _ q1 in
      let same : held ≡ old = cc q2 in contents s.contents held w ∙ ap some same
    where
      contents : (o : Option Bytes) (t : Bytes) → or_throw o BanError.not_loaded ≡ ok t → o ≡ some t
      contents none t e = absurd (cc e)
      contents (some x) t e = let same : x ≡ t = cc e in ap some same
