-- ===== src/Preferences/Service/Sound.antt =====
-- src/extensions/clientprefs/service.cpp: what holds of the service between two operations, and the
-- steps that the operations are made of.
use source2root.Base.{
  ℕ, ◌≡◌, ◌⊎◌, inl, inr, refl, sym, ap, ◌∙◌, Bool, true, false, not, ◌&&◌, Option, none, some, List,
  [], ◌∷◌, ◌++◌, if◌then◌else◌, ◌==◌, ==_iff, arith, Bool-cases, Option-cases, List-cases, is_nil,
  if-either, &&-true,
}
use source2root.Base.Text.{Bytes, ℤ}
use source2root.Base.Table.{lookup, put, member, nat_key, Distinct}
use source2root.Base.Table.Laws.{keys, lookup-put, lookup-member, Distinct-put}
use source2root.Preferences.{Account, Task, new_account, to_load, has_loaded, to_save, has_saved}
use source2root.Preferences.Invariant.{Stored, current, IsSound, loads, saves}
use source2root.Preferences.Invariant.Submits.{IsSound-new_account}
use source2root.Preferences.Service.{
  Service, Identity, submitting, kept_accounts, evict, is_active, is_idle,
}
use source2root.Preferences.Service.Worker.{tasks_of, tasks_of-append}

abbrev pub or_new : Option Account → Account
or_new none = new_account
or_new (some a) = a

-- The account as cached; one that is not cached is as a new one.
abbrev pub account_of : ℕ → List (ℕ × Account) → Account
account_of id accounts = or_new (lookup id accounts)

pub account_of-put :
    (j i : ℕ) (a : Account) (m : List (ℕ × Account))
    → account_of j (put i a m) ≡ (if i == j then a else account_of j m)
account_of-put j i a m = rw (lookup-put j i a m) (chosen (i == j) (lookup j m))
  where
    chosen :
        (b : Bool) (o : Option Account)
        → or_new (if b then some a else o) ≡ (if b then a else or_new o)
    chosen true o = refl
    chosen false o = refl

-- The value of a preference, of any account: the last write accepted, or else what is stored
abbrev pub view : Service → (ℕ → Stored) → ℕ → Stored
view w st id = current (account_of id w.accounts) (st id)

pub record IsSoundService (w : Service) (st : ℕ → Stored) : Type 0 where
  pub each_sound : (id : ℕ) → IsSound (account_of id w.accounts) (st id) (tasks_of id w.queue)
  pub distinct : Distinct (keys w.accounts)

-- The invariant stays, and so does every preference.
abbrev pub Keeps : (ℕ → Stored) → Service → Service → Type 0
Keeps st w w' =
    IsSoundService w st
    → IsSoundService w' st × ((id : ℕ) (n : Bytes) → view w' st id n ≡ view w st id n)

pub Keeps-trans :
    (st : ℕ → Stored) (w w' w'' : Service) → Keeps st w w' → Keeps st w' w'' → Keeps st w w''
Keeps-trans st w w' w'' f g h =
    let one = f h in let two = g one.0 in (two.0, λ id n. two.1 id n ∙ one.1 id n)

-- An account changes and submits tasks.
module _ (st : ℕ → Stored) (id : ℕ) (r : Account × List Task) (w : Service) where
  pub IsSoundService-submitting :
      ((s : Stored) (ts : List Task)
        → IsSound (account_of id w.accounts) s ts
        → IsSound r.0 s (ts ++ r.1))
      → IsSoundService w st
      → IsSoundService (submitting id r w) st
  IsSoundService-submitting step h = record {
    each_sound = λ j.
        rw (account_of-put j id r.0 w.accounts, tasks_of-append j id w.queue r.1)
          (go j (Bool-cases (id == j)));
    distinct = Distinct-put id r.0 w.accounts h.distinct;
  }
    where
      go :
          (j : ℕ)
          → ((id == j) ≡ true) ⊎ ((id == j) ≡ false)
          → IsSound
              (if id == j then r.0 else account_of j w.accounts)
              (st j)
              (if id == j then tasks_of j w.queue ++ r.1 else tasks_of j w.queue)
      go j (inl q) =
          let same : id ≡ j = (==_iff id j).0 q in
          rw q (step (st j) (tasks_of j w.queue) (rw same (h.each_sound j)))
      go j (inr q) = rw q (h.each_sound j)

  pub view-submitting :
      (j : ℕ) (n : Bytes)
      → view (submitting id r w) st j n ≡ (if id == j then current r.0 (st j) n else view w st j n)
  view-submitting j n = rw (account_of-put j id r.0 w.accounts) (go (id == j))
    where
      go :
          (b : Bool)
          → current (if b then r.0 else account_of j w.accounts) (st j) n
            ≡ (if b then current r.0 (st j) n else view w st j n)
      go true = refl
      go false = refl

  pub Keeps-submitting :
      ((s : Stored) (ts : List Task)
        → IsSound (account_of id w.accounts) s ts
        → IsSound r.0 s (ts ++ r.1))
      → ((s : Stored) (n : Bytes) → current r.0 s n ≡ current (account_of id w.accounts) s n)
      → Keeps st w (submitting id r w)
  Keeps-submitting step same h =
      (IsSoundService-submitting step h, λ j n. view-submitting j n ∙ go j n (Bool-cases (id == j)))
    where
      go :
          (j : ℕ) (n : Bytes)
          → ((id == j) ≡ true) ⊎ ((id == j) ≡ false)
          → (if id == j then current r.0 (st j) n else view w st j n) ≡ view w st j n
      go j n (inl q) =
          let names : id ≡ j = (==_iff id j).0 q in
          rw q (same (st j) n ∙ ap (λ k. current (account_of k w.accounts) (st j) n) names)
      go j n (inr q) = rw q refl

lookup-none : (id : ℕ) (m : List (ℕ × Account)) → member id (keys m) ≡ false → lookup id m ≡ none
lookup-none id m h = elim (Option-cases (lookup id m)) [
  | inl e ↦ e
  | inr (a, e) ↦ absurd (cc (h, lookup-member id a m e))
]

-- Evict takes away only accounts that are as new ones but for what is stored.
module _ (players : List (ℤ × Identity)) where
  member-kept_accounts :
      (id : ℕ) (m : List (ℕ × Account))
      → member id (keys m) ≡ false
      → member id (keys (kept_accounts players m)) ≡ false
  unfolding kept_accounts
  member-kept_accounts id [] h = refl
  member-kept_accounts id ((i, a) ∷ rest) h =
      if-either (λ (l : List (ℕ × Account)). member id (keys l) ≡ false)
        (not (is_active i players) && is_idle a)
        (λ e. member-kept_accounts id rest (ground (arith, h)))
        (λ e. ground (arith, h, member-kept_accounts id rest))

  pub Distinct-kept_accounts :
      (m : List (ℕ × Account)) → Distinct (keys m) → Distinct (keys (kept_accounts players m))
  unfolding kept_accounts
  Distinct-kept_accounts [] h = tt
  Distinct-kept_accounts ((i, a) ∷ rest) h =
      if-either (λ (l : List (ℕ × Account)). Distinct (keys l))
        (not (is_active i players) && is_idle a) (λ e. Distinct-kept_accounts rest h.1)
        (λ e. (member-kept_accounts i rest h.0, Distinct-kept_accounts rest h.1))

  pub lookup-kept_accounts :
      (id : ℕ) (m : List (ℕ × Account))
      → Distinct (keys m)
      → (lookup id (kept_accounts players m) ≡ lookup id m)
        ⊎ ((lookup id (kept_accounts players m) ≡ none)
            × ((a : Account) × (lookup id m ≡ some a)
                × (is_idle a ≡ true)
                × (is_active id players ≡ false)))
  unfolding kept_accounts
  lookup-kept_accounts id [] h = inl refl
  lookup-kept_accounts id ((i, a) ∷ rest) h =
      elim (Bool-cases (not (is_active i players) && is_idle a)) [
        | inr stays ↦ elim (Bool-cases (i == id)) [
          | inl q ↦ inl (rw (stays, q) refl)
          | inr q ↦ rw (stays, q) (lookup-kept_accounts id rest h.1)
        ]
        | inl goes ↦ elim (Bool-cases (i == id)) [
          | inl q ↦
              let names : i ≡ id = (==_iff i id).0 q in
              let (out, idle) = &&-true (not (is_active i players)) (is_idle a) goes in
              inr (
                rw goes (
                    lookup-none id (kept_accounts players rest)
                      (member-kept_accounts id rest (rw (sym names) h.0))),
                (a, rw q refl, idle, rw (sym names) (ground (arith, out))),
              )
          | inr q ↦ rw (goes, q) (lookup-kept_accounts id rest h.1)
        ]
      ]

pub no_tasks : (ts : List Task) → loads ts ≡ 0 → saves ts ≡ 0 → ts ≡ []
no_tasks [] l v = refl
no_tasks (to_load ∷ r) l v = absurd (omega arith)
no_tasks (has_loaded x ∷ r) l v = absurd (omega arith)
no_tasks (to_save b ∷ r) l v = absurd (omega arith)
no_tasks (has_saved b f ∷ r) l v = absurd (omega arith)

-- An idle account has no tasks, and its values are what is stored.
module _ (a : Account) (s : Stored) (ts : List Task) (h : IsSound a s ts)
    (idle : is_idle a ≡ true) where
  pub idle-no_tasks : ts ≡ []
  idle-no_tasks =
      no_tasks ts (ground (arith, h.loads_flag, idle)) (ground (arith, h.saves_flag, idle))

  idle-clean : a.dirty ≡ []
  idle-clean = elim (List-cases a.dirty) [
    | inl e ↦ e
    | inr (x, r, e) ↦
        let filled : is_nil a.dirty ≡ false = rw e refl in absurd (ground (arith, idle, filled))
  ]

  IsSound-idle : IsSound new_account s ts
  IsSound-idle = rw idle-no_tasks (IsSound-new_account s)

  current-idle : (n : Bytes) → current new_account s n ≡ current a s n
  unfolding current
  current-idle n = rw idle-clean refl

pub Keeps-evict : (st : ℕ → Stored) (w : Service) → Keeps st w (evict w)
unfolding evict
Keeps-evict st w h = (
  record {
    each_sound = λ id. (go id (lookup-kept_accounts w.players id w.accounts h.distinct)).0;
    distinct = Distinct-kept_accounts w.players w.accounts h.distinct;
  },
  λ id. (go id (lookup-kept_accounts w.players id w.accounts h.distinct)).1,
)
  where
    go :
        (id : ℕ)
        → (lookup id (kept_accounts w.players w.accounts) ≡ lookup id w.accounts)
          ⊎ ((lookup id (kept_accounts w.players w.accounts) ≡ none)
              × ((a : Account) × (lookup id w.accounts ≡ some a)
                  × (is_idle a ≡ true)
                  × (is_active id w.players ≡ false)))
        → IsSound (account_of id (kept_accounts w.players w.accounts)) (st id) (tasks_of id w.queue)
          × ((n : Bytes)
              → current (account_of id (kept_accounts w.players w.accounts)) (st id) n
                ≡ view w st id n)
    go id (inl e) = rw e (h.each_sound id, λ n. refl)
    go id (inr (e, (a, q, idle, out))) =
        let cached = h.each_sound id in
        let sound : IsSound a (st id) (tasks_of id w.queue) = rw q at cached in
        rw (e, q)
          (
            IsSound-idle a (st id) (tasks_of id w.queue) sound idle,
            current-idle a (st id) (tasks_of id w.queue) sound idle,
          )
