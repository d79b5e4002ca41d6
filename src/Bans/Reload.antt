-- ===== src/Bans/Reload.antt =====
-- src/bans.cpp: what SaveBans has written, Load reads back.
use mathlib.Core.List.{append_assoc, append-nil}
use source2root.Base.{
  ℕ, suc, ◌+◌, ◌-◌, ◌≤◌, ◌<◌, ◌≡◌, refl, sym, ap, subst, ◌∙◌, ◌⊎◌, inl, inr, ◌||◌, Bool, true,
  false, not, Option, none, some, List, [], ◌∷◌, ◌++◌, Result, ok, err, ◌>>=◌, throw_if, or_throw,
  All, arith, Result-cases, Option-cases, ltb, ◌==◌, length,
}
use source2root.Base.Text.{Bytes, ℤ, to_string, u32_max}
use source2root.Base.Table.{lookup, has, put, nat_key, Distinct, member}
use source2root.Base.Table.Laws.{keys, lookup-member}
use source2root.Identity.{parse_steam_identity, valid_steam_identity, individual_base}
use source2root.Identity.Parse.{parse_steam_identity-spellings}
use source2root.Bans.Utc.{UtcError, utc, parse_utc, parse_utc-utc}
use source2root.Bans.Store.{
  BanError, Ban, Bans, Entry, Json, safe_text, is_actor, ends_early, time_or, read_expiry,
  entry_ban, read_bans, text_or, write_expiry, ban_entry, entries, parse_bans, new_text, max_bytes,
  max_bans, is_shallow,
}

-- A ban that stands under its own account, and that ParseBans would take
pub record IsBan (id : ℕ) (b : Ban) : Type 0 where
  pub own : id ≡ b.account
  pub individual : valid_steam_identity b.account ≡ true
  pub fields :
      (ends_early b.expires b.created || not (safe_text b.reason 256) || not (is_actor b.actor))
      ≡ false

pub record IsTable (bans : Bans) : Type 0 where
  pub each_ban : All (λ kb. IsBan kb.0 kb.1) bans
  pub distinct : Distinct (keys bans)

parse_steam_identity-to_string :
    (id : ℕ) → valid_steam_identity id ≡ true → parse_steam_identity (to_string id) ≡ ok id
parse_steam_identity-to_string id h =
    let low : individual_base < id = ground (arith, h) in
    let high : id ≤ individual_base + u32_max = ground (arith, h) in
    let same : individual_base + (id - individual_base) ≡ id = omega (arith, low) in
    let spelled =
      (parse_steam_identity-spellings 0 (id - individual_base) (omega arith) (omega (arith, low))
        (omega (arith, high))).0 in
    rw same at spelled

pub >>=_left :
    {A B : Type 0} {E : Type 0} (m : Result E A) (f : A → Result E B) {r : B}
    → (m >>= f) ≡ ok r
    → (a : A) × (m ≡ ok a) × (f a ≡ ok r)
>>=_left (ok a) f e = (a, refl, e)
>>=_left (err x) f e = absurd (cc e)

text_or_lem :
    (t : ℤ) (text : Bytes)
    → text_or (utc t) ≡ ok text
    → time_or BanError.invalid_time (parse_utc text) ≡ ok t
text_or_lem t text e = go (Result-cases (utc t))
  where
    go :
        ((x : Bytes) × (utc t ≡ ok x)) ⊎ ((x : UtcError) × (utc t ≡ err x))
        → time_or BanError.invalid_time (parse_utc text) ≡ ok t
    go (inl (x, q)) =
        let e' = rw q at e in
        let same : x ≡ text = cc e' in
        let written : utc t ≡ ok text = q ∙ ap ok same in rw (parse_utc-utc t written) refl
    go (inr (x, q)) = absurd (let e' = rw q at e in cc e')

read_expiry-write_expiry :
    (t : Option ℤ) (text : Option Bytes) → write_expiry t ≡ ok text → read_expiry text ≡ ok t
read_expiry-write_expiry none text e = let same : none ≡ text = cc e in rw (sym same) refl
read_expiry-write_expiry (some t) text e =
    let (x, written, rest) = >>=_left (text_or (utc t)) (λ text. ok (some text)) e in
    let same : some x ≡ text = cc rest in rw (sym same, text_or_lem t x written) refl

-- One entry is read back as its ban.
entry_ban-ban_entry :
    (id : ℕ) (b : Ban) (e : Entry) → IsBan id b → ban_entry id b ≡ ok e → entry_ban e ≡ ok b
unfolding ban_entry entry_ban
entry_ban-ban_entry id b e h q =
    let (created, w1, q1) = >>=_left (text_or (utc b.created)) _ q in
    let (expires, w2, q2) = >>=_left (write_expiry b.expires) _ q1 in
    let same : record {
      steamid = to_string id;
      created_utc = created;
      expires_utc = expires;
      reason = b.reason;
      actor = b.actor;
    }
        ≡ e =
      cc q2 in
    let known : parse_steam_identity (to_string id) ≡ ok b.account =
      rw h.own (parse_steam_identity-to_string b.account h.individual) in
    rw
      (
        sym same,
        known,
        text_or_lem b.created created w1,
        read_expiry-write_expiry b.expires expires w2,
        h.fields,
      )
      refl

put_absent :
    {V : Type 0} (k : ℕ) (v : V) (m : List (ℕ × V))
    → member k (keys m) ≡ false
    → put k v m ≡ m ++ (k, v) ∷ []
put_absent k v [] h = refl
put_absent k v ((j, w) ∷ m) h =
    let other : (j == k) ≡ false = ground (arith, h) in
    rw other (ap (λ r. (j, w) ∷ r) (put_absent k v m (ground (arith, h))))

has_absent : {V : Type 0} (k : ℕ) (m : List (ℕ × V)) → member k (keys m) ≡ false → has k m ≡ false
has_absent k m h = elim (Option-cases (lookup k m)) [
  | inl e ↦ rw (has, e) refl
  | inr (v, e) ↦ absurd (cc (h, lookup-member k v m e))
]

-- Keys that are in neither table
abbrev Apart : Bans → Bans → Type 0
Apart t [] = Unit
Apart t ((id, b) ∷ rest) =
    (member id (keys t) ≡ false) × (member id (keys rest) ≡ false) × Apart t rest

member-append :
    {V : Type 0} (k : ℕ) (m n : List (ℕ × V))
    → member k (keys (m ++ n)) ≡ (member k (keys m) || member k (keys n))
member-append k [] n = refl
member-append k ((j, v) ∷ m) n = ground (arith, member-append k m n)

Apart-append :
    (t : Bans) (id : ℕ) (b : Ban) (l : Bans)
    → member id (keys l) ≡ false
    → Apart t l
    → Apart (t ++ (id, b) ∷ []) l
Apart-append t id b [] out h = tt
Apart-append t id b ((j, c) ∷ l) out h = (
  member-append j t ((id, b) ∷ []) ∙ ground (arith, out, h.0),
  h.1,
  Apart-append t id b l (ground (arith, out)) h.2,
)

read_bans-entries :
    (l t : Bans) (es : List Entry)
    → All (λ kb. IsBan kb.0 kb.1) l
    → Apart t l
    → entries l ≡ ok es
    → read_bans es t ≡ ok (t ++ l)
unfolding read_bans entries
read_bans-entries [] t es h d q =
    let same : [] ≡ es = cc q in rw (sym same) (ap ok (sym (append-nil t)))
read_bans-entries ((id, b) ∷ l) t es h d q =
    let (e, w1, q1) = >>=_left (ban_entry id b) _ q in
    let (rest, w2, q2) = >>=_left (entries l) _ q1 in
    let same : e ∷ rest ≡ es = cc q2 in
    let placed : put b.account b t ≡ t ++ (id, b) ∷ [] =
      subst (λ k. put k b t ≡ t ++ (id, b) ∷ []) h.0.own (put_absent id b t d.0) in
    let free : has b.account t ≡ false =
      subst (λ k. has k t ≡ false) h.0.own (has_absent id t d.0) in
    rw (sym same, entry_ban-ban_entry id b e h.0 w1, free, placed)
      (read_bans-entries l (t ++ (id, b) ∷ []) rest h.1 (Apart-append t id b l d.1 d.2) w2
        ∙ ap ok (append_assoc t ((id, b) ∷ []) l))

length-entries : (l : Bans) (es : List Entry) → entries l ≡ ok es → length es ≡ length l
unfolding entries
length-entries [] es q = let same : [] ≡ es = cc q in rw (sym same) refl
length-entries ((id, b) ∷ l) es q =
    let (e, w1, q1) = >>=_left (ban_entry id b) _ q in
    let (rest, w2, q2) = >>=_left (entries l) _ q1 in
    let same : e ∷ rest ≡ es = cc q2 in rw (sym same) (ap suc (length-entries l rest w2))

Distinct-Apart : (l : Bans) → Distinct (keys l) → Apart [] l
Distinct-Apart [] h = tt
Distinct-Apart ((id, b) ∷ l) h = (refl, h.0, Distinct-Apart l h.1)

module _ (json : Json) where
  -- The text that SaveBans would write for a table of bans is read back as the table.
  pub parse_bans-new_text :
      (old text : Bytes) (bans : Bans)
      → is_shallow old false false 0 ≡ true
      → length bans ≤ max_bans
      → IsTable bans
      → new_text json old bans ≡ ok text
      → parse_bans json text ≡ ok bans
  unfolding parse_bans
  parse_bans-new_text old text bans shallow few h q =
      let (l, w, q1) = >>=_left (entries bans) _ q in
      let (t, encoded, q2) = >>=_left (or_throw (json.encode old l) BanError.cannot_encode) _ q1 in
      let (u, fits, q3) = >>=_left (throw_if (ltb max_bytes (length t)) BanError.too_large) _ q2 in
      let same : t ≡ text = cc q3 in
      let wrote : json.encode old l ≡ some text =
        encoding (json.encode old l) t encoded ∙ ap some same in
      let small : ltb max_bytes (length text) ≡ false =
        small_enough (ltb max_bytes (length text)) (rw same at fits) in
      let some_bans : ltb max_bans (length l) ≡ false =
        rw (length-entries bans l w) (ground (arith, few)) in
      rw
        (
          small,
          json.shallow_encode old text l shallow wrote,
          json.decode_encode old text l wrote,
          some_bans,
        )
        (read_bans-entries bans [] l h.each_ban (Distinct-Apart bans h.distinct) w)
    where
      encoding :
          (o : Option Bytes) (t : Bytes) → or_throw o BanError.cannot_encode ≡ ok t → o ≡ some t
      encoding none t e = absurd (cc e)
      encoding (some x) t e = let same : x ≡ t = cc e in ap some same

      small_enough : (b : Bool) {u : Unit {0}} → throw_if b BanError.too_large ≡ ok u → b ≡ false
      small_enough true e = absurd (cc e)
      small_enough false e = refl
