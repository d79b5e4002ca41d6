-- ===== src/Preferences/Service/Refines.antt =====
-- src/extensions/clientprefs: the service with its worker and its storage as one table of preferences.
use source2root.Base.{
  ℕ, ◌≡◌, ◌⊎◌, inl, inr, refl, ◌∙◌, Bool, true, false, not, Option, none, some, [], if◌then◌else◌,
  ◌==◌, Option-cases, if-either, Result, ok, err, ◌>>=◌, throw_if, or_throw, throw_if-Ensures,
  Ensures, Ensures-ok, ◌>>◌, >>=-Ensures, length,
}
use source2root.Base.Text.{Bytes, ℤ}
use source2root.Base.Table.{lookup, has, bytes_key, nat_key}
use source2root.Base.Table.Laws.{lookup-put, equal_refl}
use source2root.Player.{int_eq, int_key}
use source2root.Preferences.{Account, ServiceError, new_account, load, is_negative}
use source2root.Preferences.Checks.{validate_account, validate_value, public_access}
use source2root.Preferences.Catalog.{Cookie, find, check_cookie, is_ready}
use source2root.Preferences.Invariant.{Stored}
use source2root.Preferences.Service.{
  Service, Identity, guarded, room, evict, kept_accounts, with_account, max_accounts, write_account,
  set_value, set_identity, user_set, current_account, same_identity,
}
use source2root.Preferences.Service.Sound.{
  IsSoundService, Keeps-trans, Keeps-evict, lookup-kept_accounts,
}
use source2root.Preferences.Service.Calls.{guarded-either}
use source2root.Preferences.Service.Writes.{
  WriteHolds, WriteHolds-after, WriteHolds-write_account, Keeps-with_account,
}

-- The name of the cookie that an operation gets
abbrev pub cookie_name : Result ServiceError Cookie → Bytes
cookie_name (err e) = []
cookie_name (ok c) = c.definition.name

abbrev pub named : Option ℕ → Service → Bytes
named cookie w = cookie_name (check_cookie cookie w.catalog)

abbrev pub IsCached : Identity → Service → Account → Type 0
IsCached p w a = lookup p.account w.accounts ≡ some a

pub current_account-IsCached :
    (p : Identity) (w : Service) → Ensures (IsCached p w) (current_account p w)
unfolding current_account
current_account-IsCached p w =
    >>=-Ensures (IsCached p w) (or_throw (lookup p.slot w.players) ServiceError.no_connection)
      (λ q.
        throw_if (not (same_identity q p)) ServiceError.no_connection
        >> or_throw (lookup p.account w.accounts) ServiceError.missing_account)
      λ q e.
        throw_if-Ensures (IsCached p w) (not (same_identity q p)) ServiceError.no_connection
          (or_throw (lookup p.account w.accounts) ServiceError.missing_account)
          λ same. found (lookup p.account w.accounts)
  where
    found :
        (o : Option Account) → Ensures (λ a. o ≡ some a) (or_throw o ServiceError.missing_account)
    found none = tt
    found (some a) = refl

module _ (st : ℕ → Stored) (text : Bytes) (now : ℤ) (w : Service) (h : IsSoundService w st) where
  pub WriteHolds-set_value :
      (p : Identity) (cookie : Option ℕ)
      → WriteHolds st w p.account (named cookie w) (text, now) (set_value p cookie text now w)
  unfolding set_value
  WriteHolds-set_value p cookie =
      guarded-either (WriteHolds st w p.account (named cookie w) (text, now)) w chain
        (λ name. write_account p.account name text now w) (λ e. (h, λ j n. refl))
        λ name e.
          let (same, there) = Ensures-ok Target chain checked e in
          rw same (WriteHolds-write_account st p.account (named cookie w) text now w there h)
    where
      Target : Bytes → Type 0
      Target name = (name ≡ named cookie w) × (has p.account w.accounts ≡ true)

      cached_chain : Result ServiceError Account
      cached_chain = validate_value text >> current_account p w

      rest : Cookie → Account → Result ServiceError Bytes
      rest c a = throw_if (not (is_ready a.state)) ServiceError.not_cached >> ok c.definition.name

      chain : Result ServiceError Bytes
      chain = check_cookie cookie w.catalog >>= λ c. cached_chain >>= rest c

      cached : Ensures (IsCached p w) cached_chain
      cached =
          >>=-Ensures (IsCached p w) (validate_value text) (λ u. current_account p w)
            λ u e. current_account-IsCached p w

      checked : Ensures Target chain
      checked =
          >>=-Ensures Target (check_cookie cookie w.catalog) (λ c. cached_chain >>= rest c)
            λ c e. >>=-Ensures Target cached_chain (rest c) λ a q.
              throw_if-Ensures Target (not (is_ready a.state)) ServiceError.not_cached
                (ok c.definition.name)
                λ r. (rw e refl, rw (Ensures-ok (IsCached p w) cached_chain cached q, has) refl)

  pub WriteHolds-set_identity :
      (id : ℕ) (cookie : Option ℕ)
      → WriteHolds st w id (named cookie w) (text, now) (set_identity id cookie text now w)
  unfolding set_identity
  WriteHolds-set_identity id cookie =
      guarded-either (WriteHolds st w id (named cookie w) (text, now)) w chain
        (λ name.
          if has id w.accounts
          then write_account id name text now w
          else guarded (evict w) (throw_if full ServiceError.too_many_accounts)
              λ u. write_account id name text now (with_account id (evict w)))
        (λ e. (h, λ j n. refl))
        λ name e. rw (Ensures-ok Target chain checked e) (
          if-either (WriteHolds st w id (named cookie w) (text, now)) (has id w.accounts)
            (λ there. WriteHolds-write_account st id (named cookie w) text now w there h)
            (λ absent.
              guarded-either (WriteHolds st w id (named cookie w) (text, now)) (evict w)
                (throw_if full ServiceError.too_many_accounts)
                (λ u. write_account id (named cookie w) text now (with_account id (evict w)))
                (λ e. Keeps-evict st w h) λ u e. loaded absent))
    where
      full : Bool
      full = length (evict w).accounts == max_accounts

      Target : Bytes → Type 0
      Target name = name ≡ named cookie w

      rest : Cookie → Result ServiceError Bytes
      rest c =
          validate_account id
          >> (validate_value text
              >> (throw_if (is_negative now) ServiceError.invalid_timestamp
                  >> ok c.definition.name))

      chain : Result ServiceError Bytes
      chain = check_cookie cookie w.catalog >>= rest

      checked : Ensures Target chain
      checked = >>=-Ensures Target (check_cookie cookie w.catalog) rest λ c e.
          >>=-Ensures Target (validate_account id) _ λ u q.
            >>=-Ensures Target (validate_value text) _ λ u q.
              throw_if-Ensures Target (is_negative now) ServiceError.invalid_timestamp
                (ok c.definition.name) λ q. rw e refl

      gone : has id w.accounts ≡ false → lookup id (evict w).accounts ≡ none
      gone absent = unfold evict in go (Option-cases (lookup id w.accounts))
        where
          go :
              (lookup id w.accounts ≡ none) ⊎ ((a : Account) × (lookup id w.accounts ≡ some a))
              → lookup id (kept_accounts w.players w.accounts) ≡ none
          go (inl e) = elim (lookup-kept_accounts w.players id w.accounts h.distinct) [
            | inl q ↦ q ∙ e
            | inr (q, r) ↦ q
          ]
          go (inr (a, e)) = absurd (let absent' = rw (e, has) at absent in cc absent')

      there : has id (with_account id (evict w)).accounts ≡ true
      there =
          let a = (load (room (evict w)) new_account).0 in
          rw (has, lookup-put id id a (evict w).accounts, equal_refl id) refl

      loaded :
          has id w.accounts ≡ false
          → WriteHolds st w id
              (named cookie w)
              (text, now)
              (write_account id (named cookie w) text now (with_account id (evict w)))
      loaded absent =
          let before =
            Keeps-trans st w (evict w) (with_account id (evict w)) (Keeps-evict st w)
              (Keeps-with_account st id (evict w) (gone absent)) h in
          WriteHolds-after st id (named cookie w) text now w (with_account id (evict w))
            (write_account id (named cookie w) text now (with_account id (evict w))) before.1
            (WriteHolds-write_account st id (named cookie w) text now (with_account id (evict w))
              there before.0)

  pub WriteHolds-user_set :
      (p : Identity) (name : Bytes)
      → WriteHolds st w p.account
          (named (find name w.catalog) w)
          (text, now)
          (user_set p name text now w)
  unfolding user_set
  WriteHolds-user_set p name =
      guarded-either (WriteHolds st w p.account (named (find name w.catalog) w) (text, now)) w
        (check_cookie (find name w.catalog) w.catalog >>= λ c.
          throw_if (not (int_eq c.definition.access public_access)) ServiceError.not_public)
        (λ u. set_value p (find name w.catalog) text now w) (λ e. (h, λ j n. refl))
        λ u e. WriteHolds-set_value p (find name w.catalog)
