-- ===== src/Preferences/Service/Writes.antt =====
-- src/extensions/clientprefs/service.cpp: Sync and the catalog keep every preference, and an accepted
-- write changes one.
use mathlib.Core.List.{append-nil}
use source2root.Base.{
  ℕ, ◌≡◌, ◌⊎◌, inl, inr, refl, sym, ap, ◌∙◌, Bool, true, false, not, ◌||◌, ◌+◌, Option, none, some,
  List, [], ◌∷◌, if◌then◌else◌, ◌==◌, ==_iff, arith, Bool-cases, Option-cases, if-either, Result,
  ok, err, All, ltb, length, throw_if, throw_if-Ensures, Ensures, Ensures-ok, ◌>>◌, >>=-Ensures,
}
use source2root.Base.Text.{Bytes, ℤ, pos, int_le}
use source2root.Base.Table.{lookup, has, put, member, nat_key, bytes_key, Distinct}
use source2root.Base.Table.Laws.{lookup-put}
use source2root.Player.{int_key}
use source2root.Preferences.{
  State, Account, Task, ServiceError, new_account, load, save, write, written, is_negative,
  max_revision,
}
use source2root.Preferences.Checks.{Definition, validate_account}
use source2root.Preferences.Catalog.{registered, submitted, is_failed}
use source2root.Preferences.Invariant.{Stored, current, IsSound}
use source2root.Preferences.Invariant.Submits.{
  IsSound-written, IsSound-save, IsSound-load, current-save, current-load, current-written,
}
use source2root.Preferences.Service.{
  Service, Identity, submitting, evict, guarded, Outcome, room, with_account, with_accounts,
  snapshot, sync, register, register_as, load_catalog, retry_catalog, max_clients, max_accounts,
  write_account, register_job, catalog_job,
}
use source2root.Preferences.Service.Worker.{tasks_of, tasks_of-queue}
use source2root.Preferences.Service.Sound.{
  view, IsSoundService, Keeps, Keeps-trans, Keeps-submitting, IsSoundService-submitting,
  view-submitting, Keeps-evict,
}
use source2root.Preferences.Service.Calls.{Keeps-refl, guarded-either, Keeps-same}

-- Accounts that are not cached, each once
abbrev pub Fresh : List ℕ → Service → Type 0
Fresh l w = Distinct l × All (λ id. lookup id w.accounts ≡ none) l

All-put :
    (id : ℕ) (a : Account) (m : List (ℕ × Account)) (l : List ℕ)
    → member id l ≡ false
    → All (λ j. lookup j m ≡ none) l
    → All (λ j. lookup j (put id a m) ≡ none) l
All-put id a m [] out h = tt
All-put id a m (j ∷ l) out h =
    let other : (id == j) ≡ false = ground (arith, out) in
    (lookup-put j id a m ∙ rw other h.0, All-put id a m l (ground (arith, out)) h.1)

snapshot-Fresh :
    (w : Service) (ps : List Identity) (next : List (ℤ × Identity)) (missing : List ℕ)
    → Fresh missing w
    → Ensures (λ r. Fresh r.1 w) (snapshot w ps next missing)
unfolding snapshot
snapshot-Fresh w [] next missing h = h
snapshot-Fresh w (p ∷ rest) next missing h =
    let known = has p.account w.accounts || member p.account missing in
    let invalid =
      not (int_le (pos 0) p.slot)
      || not (int_le p.slot (pos 127))
      || p.connection == 0
      || has p.slot next in
    let more : Result ServiceError (List (ℤ × Identity) × List ℕ) =
      snapshot w rest (put p.slot p next) (if known then missing else p.account ∷ missing) in
    >>=-Ensures (λ (r : List (ℤ × Identity) × List ℕ). Fresh r.1 w) (validate_account p.account)
      (λ u. throw_if invalid ServiceError.invalid_connection >> more)
      λ u e.
        throw_if-Ensures (λ (r : List (ℤ × Identity) × List ℕ). Fresh r.1 w) invalid
          ServiceError.invalid_connection more
          λ q.
            snapshot-Fresh w rest (put p.slot p next)
              (if known then missing else p.account ∷ missing)
              (if-either (λ (l : List ℕ). Fresh l w) known (λ k. h)
                (λ k. fresh (Option-cases (lookup p.account w.accounts)) k))
  where
    fresh :
        (lookup p.account w.accounts ≡ none)
          ⊎ ((a : Account) × (lookup p.account w.accounts ≡ some a))
        → (has p.account w.accounts || member p.account missing) ≡ false
        → Fresh (p.account ∷ missing) w
    fresh (inl e) k = ((ground (arith, k), h.0), (e, h.1))
    fresh (inr (a, e)) k =
        let there : has p.account w.accounts ≡ false = ground (arith, k) in
        absurd (let there' = rw (e, has) at there in cc there')

module _ (st : ℕ → Stored) where
  pub Keeps-with_account :
      (id : ℕ) (w : Service) → lookup id w.accounts ≡ none → Keeps st w (with_account id w)
  Keeps-with_account id w e =
      Keeps-submitting st id (load (room w) new_account) w
        (λ s ts h. let h' = rw e at h in IsSound-load new_account s ts h' (room w))
        (λ s n. rw e (current-load (room w) new_account s n))

  Keeps-with_accounts : (l : List ℕ) (w : Service) → Fresh l w → Keeps st w (with_accounts l w)
  Keeps-with_accounts [] w f = Keeps-refl st w
  Keeps-with_accounts (id ∷ l) w f =
      Keeps-trans st w (with_account id w) (with_accounts l (with_account id w))
        (Keeps-with_account id w f.1.0)
        (Keeps-with_accounts l (with_account id w)
          (f.0.1, All-put id (load (room w) new_account).0 w.accounts l f.0.0 f.1.1))

  pub Keeps-sync : (ps : List Identity) (w : Service) → Keeps st w (sync ps w).0
  unfolding sync
  Keeps-sync ps w =
      let checked =
        throw_if (ltb max_clients (length ps)) ServiceError.too_many_connections
        >> snapshot w ps [] [] in
      guarded-either (λ o. Keeps st w o.0) w checked
        (λ r.
          guarded w
            (throw_if (ltb max_accounts (length w.accounts + length r.1))
              ServiceError.too_many_accounts)
            λ u. (evict (with_accounts r.1 (record w { players = r.0 })), none))
        (λ e. Keeps-refl st w)
        λ r e.
          guarded-either (λ o. Keeps st w o.0) w
            (throw_if (ltb max_accounts (length w.accounts + length r.1))
              ServiceError.too_many_accounts)
            (λ u. (evict (with_accounts r.1 (record w { players = r.0 })), none))
            (λ e. Keeps-refl st w)
            λ u q. Keeps-joined r (
              Ensures-ok (λ (r : List (ℤ × Identity) × List ℕ). Fresh r.1 w) checked
                (throw_if-Ensures (λ (r : List (ℤ × Identity) × List ℕ). Fresh r.1 w)
                  (ltb max_clients (length ps)) ServiceError.too_many_connections
                  (snapshot w ps [] []) (λ b. snapshot-Fresh w ps [] [] (tt, tt)))
                e)
    where
      Keeps-joined :
          (r : List (ℤ × Identity) × List ℕ)
          → Fresh r.1 w
          → Keeps st w (evict (with_accounts r.1 (record w { players = r.0 })))
      Keeps-joined r fresh =
          let w1 = record w { players = r.0 } in
          let w2 = with_accounts r.1 w1 in
          Keeps-trans st w w1 (evict w2) (Keeps-same st w w1 refl (λ id. refl))
            (Keeps-trans st w1 w2 (evict w2) (Keeps-with_accounts r.1 w1 fresh) (Keeps-evict st w2))

  pub Keeps-load_catalog : (w : Service) → Keeps st w (load_catalog w)
  unfolding load_catalog
  Keeps-load_catalog w =
      if-either (Keeps st w) (room w)
        (λ e.
          Keeps-same st w _ refl
            λ id. tasks_of-queue id w.queue (catalog_job ∷ []) ∙ append-nil (tasks_of id w.queue))
        (λ e. Keeps-same st w _ refl λ id. refl)

  pub Keeps-retry_catalog : (w : Service) → Keeps st w (retry_catalog w)
  unfolding retry_catalog
  Keeps-retry_catalog w =
      let w1 = record w {
        catalog = record w.catalog { state = State.loading_state; error = [] };
      } in
      if-either (Keeps st w) (is_failed w.catalog.state)
        (λ e.
          Keeps-trans st w w1 (load_catalog w1) (Keeps-same st w w1 refl (λ id. refl))
            (Keeps-load_catalog w1))
        (λ e. Keeps-refl st w)

  Keeps-register_as :
      (r : Result ServiceError (Option ℕ)) (d : Definition) (w : Service)
      → Keeps st w (register_as r d w).0
  Keeps-register_as (err e) d w = Keeps-refl st w
  Keeps-register_as (ok (some i)) d w = Keeps-refl st w
  Keeps-register_as (ok none) d w =
      if-either (λ (r : Service × Result ServiceError ℕ). Keeps st w r.0) (room w)
        (λ e. Keeps-same st w _ refl λ id.
          tasks_of-queue id w.queue (register_job (submitted d w.catalog).1 d ∷ [])
          ∙ append-nil (tasks_of id w.queue))
        (λ e. Keeps-refl st w)

  pub Keeps-register : (d : Definition) (w : Service) → Keeps st w (register d w).0
  unfolding register
  Keeps-register d w = Keeps-register_as (registered d w.catalog) d w

-- What a write leaves: thrown, every preference as before; done, one preference changed.
abbrev pub WriteHolds : (ℕ → Stored) → Service → ℕ → Bytes → Bytes × ℤ → Outcome → Type 0
WriteHolds st w id name v (w', some e) =
    IsSoundService w' st × ((j : ℕ) (n : Bytes) → view w' st j n ≡ view w st j n)
WriteHolds st w id name v (w', none) =
    IsSoundService w' st
    × ((j : ℕ) (n : Bytes)
        → view w' st j n ≡ (
            if id == j
            then (if bytes_key.equal name n then some v else view w st j n)
            else view w st j n))

module _ (st : ℕ → Stored) (id : ℕ) (name text : Bytes) (now : ℤ) where
  -- Keeping steps before a write
  pub WriteHolds-after :
      (w w1 : Service) (o : Outcome)
      → ((j : ℕ) (n : Bytes) → view w1 st j n ≡ view w st j n)
      → WriteHolds st w1 id name (text, now) o
      → WriteHolds st w id name (text, now) o
  WriteHolds-after w w1 (w', some e) k h = (h.0, λ j n. h.1 j n ∙ k j n)
  WriteHolds-after w w1 (w', none) k h = (
    h.0,
    λ j n.
        h.1 j n
        ∙ ap (λ o. if id == j then (if bytes_key.equal name n then some (text, now) else o) else o)
            (k j n),
  )

  write-ok :
      (b : Bool) (a : Account) (r : Account × List Task)
      → write b name text now a ≡ ok r
      → r ≡ save b (written name text now a)
  unfolding write
  write-ok b a r e =
      let refused = is_negative now || a.revision == max_revision in
      let rest : Result ServiceError (Account × List Task) =
        ok (save b (written name text now a)) in
      Ensures-ok (λ (r : Account × List Task). r ≡ save b (written name text now a))
        (throw_if refused ServiceError.invalid_timestamp >> rest)
        (throw_if-Ensures (λ (r : Account × List Task). r ≡ save b (written name text now a))
          refused ServiceError.invalid_timestamp rest (λ q. refl))
        e

  module _ (w : Service) (a : Account) (cached : lookup id w.accounts ≡ some a) where
    abbrev saved_write : Account × List Task
    saved_write = save (room w) (written name text now a)

    IsSoundService-write : IsSoundService w st → IsSoundService (submitting id saved_write w) st
    IsSoundService-write = IsSoundService-submitting st id saved_write w λ s ts h.
        let sound : IsSound a s ts = rw cached at h in
        IsSound-save (written name text now a) s ts (IsSound-written name text now a s ts sound)
          (room w)

    view-write :
        (j : ℕ) (n : Bytes)
        → view (submitting id saved_write w) st j n ≡ (
            if id == j
            then (if bytes_key.equal name n then some (text, now) else view w st j n)
            else view w st j n)
    view-write j n = view-submitting st id saved_write w j n ∙ go (Bool-cases (id == j))
      where
        go :
            ((id == j) ≡ true) ⊎ ((id == j) ≡ false)
            → (if id == j then current saved_write.0 (st j) n else view w st j n) ≡ (
                if id == j
                then (if bytes_key.equal name n then some (text, now) else view w st j n)
                else view w st j n)
        go (inr other) = rw other refl
        go (inl same) =
            let names : id ≡ j = (==_iff id j).0 same in
            rw (same, sym names, cached)
              (current-save (room w) (written name text now a) (st id) n
                ∙ current-written name text now a (st id) n)

  pub WriteHolds-write_account :
      (w : Service)
      → has id w.accounts ≡ true
      → IsSoundService w st
      → WriteHolds st w id name (text, now) (write_account id name text now w)
  WriteHolds-write_account w there h = go (Option-cases (lookup id w.accounts))
    where
      go :
          (lookup id w.accounts ≡ none) ⊎ ((a : Account) × (lookup id w.accounts ≡ some a))
          → WriteHolds st w id name (text, now) (write_account id name text now w)
      go (inl e) = absurd (let there' = rw (e, has) at there in cc there')
      go (inr (a, e)) =
          rw (e, write_account)
            (guarded-either (WriteHolds st w id name (text, now)) w (write (room w) name text now a)
              (λ r. (submitting id r w, none)) (λ e. (h, λ j n. refl))
              λ r q. rw (write-ok (room w) a r q) (IsSoundService-write w a e h, view-write w a e))
