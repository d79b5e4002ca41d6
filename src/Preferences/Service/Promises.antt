-- ===== src/Preferences/Service/Promises.antt =====
-- src/extensions/clientprefs/service.h: what the service promises to the extension.
use source2root.Base.{
  ℕ, ◌≡◌, ◌≢◌, ◌⊎◌, inl, inr, refl, ap, ◌∙◌, true, false, not, Option, none, some, List, [], ◌∷◌,
  ◌==◌, arith, Bool-cases, List-cases, is_nil, Result, ok, ◌>>=◌, throw_if, throw_if-Ensures,
  Ensures, Ensures-ok, ◌>>◌, >>=-Ensures,
}
use source2root.Base.Text.{Bytes, ℤ, pos}
use source2root.Base.Table.{lookup, bytes_key, nat_key}
use source2root.Preferences.{Account, Task, Values, ServiceError, State, Value, completed}
use source2root.Preferences.Storage.{Storage, or_saved}
use source2root.Preferences.Catalog.{Cookie, check_cookie, is_ready}
use source2root.Preferences.Invariant.{Stored, current, IsSound}
use source2root.Preferences.Service.{
  Service, Identity, start, load_catalog, get, or_value, current_account, evict, is_idle, is_active,
  pump, can_stop, all_clean,
}
use source2root.Preferences.Service.Worker.{tasks_of}
use source2root.Preferences.Service.Sound.{
  account_of, view, IsSoundService, lookup-kept_accounts, idle-no_tasks,
}
use source2root.Preferences.Service.Calls.{Keeps-pump}
use source2root.Preferences.Service.Runs.{Call, run, log, preferences, replay, begin}
use source2root.Preferences.Service.Kept.{run-holds, begin-holds}
use source2root.Preferences.Service.Refines.{named, IsCached, current_account-IsCached}

-- A value that is not there is empty.
abbrev pub or_default : Option (Bytes × ℤ) → Bytes × ℤ
or_default none = ([], pos 0)
or_default (some v) = v

or_value-or_saved : (o : Option Value) → or_value o ≡ or_default (or_saved o none)
or_value-or_saved none = refl
or_value-or_saved (some v) = refl

is_ready-ready : (s : State) → is_ready s ≡ true → s ≡ State.ready
is_ready-ready State.loading_state h = cc
is_ready-ready State.ready h = refl
is_ready-ready State.failed h = cc

-- Get
Ensures-get :
    (st : ℕ → Stored) (w : Service) (p : Identity) (cookie : Option ℕ)
    → IsSoundService w st
    → Ensures (λ v. v ≡ or_default (view w st p.account (named cookie w))) (get p cookie w)
unfolding get
Ensures-get st w p cookie h =
    >>=-Ensures Answers (check_cookie cookie w.catalog) (λ c. current_account p w >>= read c)
      λ c e. >>=-Ensures Answers (current_account p w) (read c) λ a q.
        throw_if-Ensures Answers (not (is_ready a.state)) ServiceError.not_cached
          (ok (or_value (lookup c.definition.name a.values)))
          λ r.
            let held : IsCached p w a =
              Ensures-ok (IsCached p w) (current_account p w) (current_account-IsCached p w) q in
            let sound = h.each_sound p.account in
            let sound' : IsSound a (st p.account) (tasks_of p.account w.queue) = rw held at sound in
            rw (e, held)
              (or_value-or_saved (lookup c.definition.name a.values)
                ∙ ap or_default
                    (sound'.cached (is_ready-ready a.state (ground (arith, r))) c.definition.name))
  where
    Answers : Bytes × ℤ → Type 0
    Answers v = v ≡ or_default (view w st p.account (named cookie w))

    read : Cookie → Account → Result ServiceError (Bytes × ℤ)
    read c a =
        throw_if (not (is_ready a.state)) ServiceError.not_cached
        >> ok (or_value (lookup c.definition.name a.values))

all_clean-account_of :
    (id : ℕ) (m : List (ℕ × Account)) → all_clean m ≡ true → (account_of id m).dirty ≡ []
all_clean-account_of id [] h = refl
all_clean-account_of id ((i, a) ∷ m) h = elim (Bool-cases (i == id)) [
  | inl q ↦ rw q (nil (Bool-cases (is_nil a.dirty)) (List-cases a.dirty))
  | inr q ↦ rw q (all_clean-account_of id m (ground (arith, h)))
]
  where
    nil :
        (is_nil a.dirty ≡ true) ⊎ (is_nil a.dirty ≡ false)
        → (a.dirty ≡ []) ⊎ ((x : Bytes × Value) × (r : Values) × (a.dirty ≡ x ∷ r))
        → a.dirty ≡ []
    nil b (inl e) = e
    nil (inr q) (inr (x, r, e)) = absurd (ground (arith, h, q))
    nil (inl q) (inr (x, r, e)) = absurd (let q' = rw e at q in cc q')

module _ {S : Type 0} (storage : Storage S) where
  -- Whatever the owner calls and the worker does, from an empty service on, and whatever the storage
  -- throws, the preferences are the ones stored at first with the accepted writes over them, in
  -- their order: the last write that was accepted for a name counts, and a call that throws, a load
  -- that is late and a save that fails change none.
  pub run-preferences :
      (calls : List Call) (s : S) (j : ℕ) (n : Bytes)
      → preferences storage (run storage calls (begin storage s)) j n
        ≡ replay (log storage calls (begin storage s)) (storage.stored s) j n
  unfolding current start load_catalog
  run-preferences calls s = (run-holds storage calls (begin storage s) (begin-holds storage s)).1

  -- Where Get answers, after any calls, it answers with the last write that was accepted for the
  -- account and the cookie, or else with what was stored at first, or with the empty value.
  pub get-run :
      (calls : List Call) (s : S) (p : Identity) (cookie : Option ℕ) {v : Bytes × ℤ}
      → get p cookie (run storage calls (begin storage s)).service ≡ ok v
      → v
        ≡ or_default (
            replay
              (log storage calls (begin storage s))
              (storage.stored s)
              p.account
              (named cookie (run storage calls (begin storage s)).service))
  get-run calls s p cookie e =
      let w = run storage calls (begin storage s) in
      let sound = (run-holds storage calls (begin storage s) (begin-holds storage s)).0 in
      Ensures-ok (λ v. v ≡ or_default (preferences storage w p.account (named cookie w.service)))
        (get p cookie w.service)
        (Ensures-get (λ i. storage.stored w.base i) w.service p cookie sound) e
      ∙ ap or_default (run-preferences calls s p.account (named cookie w.service))

  -- Where CanStop says yes, after any calls, every accepted write is stored.
  pub can_stop-stored :
      (calls : List Call) (s : S)
      → (can_stop (run storage calls (begin storage s)).service).1 ≡ true
      → (j : ℕ) (n : Bytes)
      → storage.stored (run storage calls (begin storage s)).base j n
        ≡ replay (log storage calls (begin storage s)) (storage.stored s) j n
  unfolding can_stop current
  can_stop-stored calls s e j n =
      let w = run storage calls (begin storage s) in
      let sound = (run-holds storage calls (begin storage s) (begin-holds storage s)).0 in
      let kept = (Keeps-pump (λ i. storage.stored w.base i) w.service sound).1 j n in
      let clean' : (account_of j (pump w.service).accounts).dirty ≡ [] =
        all_clean-account_of j (pump w.service).accounts (ground (arith, e)) in
      (rw clean' at kept) ∙ run-preferences calls s j n

-- Evict takes no account that has a task in the queue or that a connected player has.
pub lookup-evict :
    (st : ℕ → Stored) (w : Service) (id : ℕ)
    → IsSoundService w st
    → (tasks_of id w.queue ≢ []) ⊎ (is_active id w.players ≡ true)
    → lookup id (evict w).accounts ≡ lookup id w.accounts
unfolding evict
lookup-evict st w id h used = elim (lookup-kept_accounts w.players id w.accounts h.distinct) [
  | inl e ↦ e
  | inr (e, (a, held, idle, out)) ↦ absurd (refuse a held idle out used)
]
  where
    refuse :
        (a : Account)
        → lookup id w.accounts ≡ some a
        → is_idle a ≡ true
        → is_active id w.players ≡ false
        → (tasks_of id w.queue ≢ []) ⊎ (is_active id w.players ≡ true)
        → ⊥
    refuse a held idle out (inl busy) =
        let sound = h.each_sound id in
        busy (idle-no_tasks a (st id) (tasks_of id w.queue) (rw held at sound) idle)
    refuse a held idle out (inr active) = absurd (cc (active, out))

-- The completions of an account's tasks, in their order
unfoldable pub complete_all : List Task → Account → Account
complete_all [] a = a
complete_all (t ∷ rest) a = complete_all rest (completed t a)
