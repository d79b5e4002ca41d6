-- ===== src/Preferences/Service.antt =====
-- src/extensions/clientprefs/service.cpp: the service's operations, the queue and the worker.
-- An operation gives the state it leaves and the exception it throws, if any. Before it runs, Pump
-- has erased the tickets of completed tasks. One thread owns the service.
pub mod Worker
pub mod Sound
pub mod Calls
pub mod Writes
pub mod Refines
pub mod Runs
pub mod Kept
pub mod Promises
use source2root.Base.{
  ℕ, ◌+◌, ◌≡◌, Bool, true, false, not, ◌&&◌, ◌||◌, Option, none, some, List, [], ◌∷◌, ◌++◌, Result,
  ok, err, ◌>>=◌, ◌>>◌, throw_if, or_throw, if◌then◌else◌, ltb, ◌==◌, is_nil, length, map, any,
}
use source2root.Base.Text.{Bytes, ℤ, pos, codes, int_le}
use source2root.Base.Table.{lookup, has, put, without, member, bytes_key, nat_key}
use source2root.Player.{int_eq, int_key}
use source2root.Preferences.{
  Failure, message, ServiceError, State, Account, Value, Values, Task, new_account, load, save,
  write, is_negative, completed,
}
use source2root.Preferences.Checks.{Definition, validate_account, validate_value, public_access}
use source2root.Preferences.Storage.{is_done}
use source2root.Preferences.Catalog.{
  Catalog, Cookie, find, check_cookie, registered, submitted, after_register, after_catalog,
  is_failed, is_ready,
}

pub record Identity : Type 0 where
  pub slot : ℤ
  pub connection : ℕ
  pub account : ℕ

-- A task of the service: an account's, or one of the catalog, to do or done.
pub data Job : Type 0 where
  account_job : ℕ → Task → Job
  register_job : ℕ → Definition → Job
  registered_job : ℕ → Option Failure → Job
  catalog_job : Job
  catalogued_job : Result Failure (List Definition) → Job

-- Service. `queue` holds the tasks that Dispatch has not completed, oldest first.
pub record Service : Type 0 where
  pub players : List (ℤ × Identity)
  pub accounts : List (ℕ × Account)
  pub catalog : Catalog
  pub queue : List Job

abbrev pub max_clients : ℕ
max_clients = 128

abbrev pub max_accounts : ℕ
max_accounts = 256

-- What an operation leaves and throws
abbrev pub Outcome : Type 0
Outcome = Service × Option ServiceError

abbrev pub guarded : {A : Type 0} → Service → Result ServiceError A → (A → Outcome) → Outcome
guarded w (ok a) f = f a
guarded w (err e) f = (w, some e)

-- Whether queue_.Submit takes one more task
abbrev pub room : Service → Bool
room w = ltb (length w.queue) 256

-- The account and the tasks it submits go back into the service.
abbrev pub submitting : ℕ → Account × List Task → Service → Service
submitting id r w = record w {
  accounts = put id r.0 w.accounts;
  queue = w.queue ++ map (account_job id) r.1;
}

abbrev pub on_account : ℕ → (Account → Account × List Task) → Service → Service
on_account id f w = elim (lookup id w.accounts) [ none ↦ w | some a ↦ submitting id (f a) w ]

abbrev pub ids : List (ℕ × Account) → List ℕ
ids [] = []
ids ((id, a) ∷ rest) = id ∷ ids rest

-- for (const auto& [id, account] : accounts_)
unfoldable pub each_account : (Bool → Account → Account × List Task) → List ℕ → Service → Service
each_account f [] w = w
each_account f (id ∷ rest) w = each_account f rest (on_account id (f (room w)) w)

-- Evict
abbrev pub is_active : ℕ → List (ℤ × Identity) → Bool
is_active id players = any (λ p. p.1.account == id) players

abbrev pub is_idle : Account → Bool
is_idle a = not a.loading && not a.saving && is_nil a.dirty

unfoldable pub kept_accounts : List (ℤ × Identity) → List (ℕ × Account) → List (ℕ × Account)
kept_accounts players [] = []
kept_accounts players ((id, a) ∷ rest) =
    let others = kept_accounts players rest in
    if not (is_active id players) && is_idle a then others else (id, a) ∷ others

unfoldable pub evict : Service → Service
evict w = record w { accounts = kept_accounts w.players w.accounts }

-- Sync: the snapshot's players, and its accounts that are not cached, the last one first
abbrev pub same_identity : Identity → Identity → Bool
same_identity p q = int_eq p.slot q.slot && p.connection == q.connection && p.account == q.account

unfoldable pub snapshot :
    Service
    → List Identity
    → List (ℤ × Identity)
    → List ℕ
    → Result ServiceError (List (ℤ × Identity) × List ℕ)
snapshot w [] next missing = ok (next, missing)
snapshot w (p ∷ rest) next missing =
    validate_account p.account
    >> (throw_if
          (not (int_le (pos 0) p.slot)
            || not (int_le p.slot (pos 127))
            || p.connection == 0
            || has p.slot next)
          ServiceError.invalid_connection
        >> snapshot w rest (put p.slot p next) (
            if has p.account w.accounts || member p.account missing
            then missing
            else p.account ∷ missing))

abbrev pub with_account : ℕ → Service → Service
with_account id w = submitting id (load (room w) new_account) w

abbrev pub with_accounts : List ℕ → Service → Service
with_accounts [] w = w
with_accounts (id ∷ rest) w = with_accounts rest (with_account id w)

unfoldable pub sync : List Identity → Service → Outcome
sync players w =
    guarded w
      (throw_if (ltb max_clients (length players)) ServiceError.too_many_connections
        >> snapshot w players [] [])
      λ r.
        guarded w
          (throw_if (ltb max_accounts (length w.accounts + length r.1))
            ServiceError.too_many_accounts)
          λ u. (evict (with_accounts r.1 (record w { players = r.0 })), none)

-- Current: the account, where the connection is still the slot's
unfoldable pub current_account : Identity → Service → Result ServiceError Account
current_account p w = or_throw (lookup p.slot w.players) ServiceError.no_connection >>= λ q.
    throw_if (not (same_identity q p)) ServiceError.no_connection
    >> or_throw (lookup p.account w.accounts) ServiceError.missing_account

unfoldable pub status : Identity → Service → Result ServiceError State
status p w = current_account p w >>= λ a. ok a.state

unfoldable pub error_text : Identity → Service → Result ServiceError Bytes
error_text p w = current_account p w >>= λ a. ok a.error

abbrev pub or_value : Option Value → Bytes × ℤ
or_value none = ([], pos 0)
or_value (some v) = (v.text, v.updated)

-- Get, without the revision
unfoldable pub get : Identity → Option ℕ → Service → Result ServiceError (Bytes × ℤ)
get p cookie w = check_cookie cookie w.catalog >>= λ c. current_account p w >>= λ a.
    throw_if (not (is_ready a.state)) ServiceError.not_cached
    >> ok (or_value (lookup c.definition.name a.values))

-- Write
abbrev pub write_account : ℕ → Bytes → Bytes → ℤ → Service → Outcome
write_account id name text now w = elim (lookup id w.accounts) [
  | none ↦ (w, none)
  | some a ↦ guarded w (write (room w) name text now a) λ r. (submitting id r w, none)
]

unfoldable pub set_value : Identity → Option ℕ → Bytes → ℤ → Service → Outcome
set_value p cookie text now w =
    guarded w
      (check_cookie cookie w.catalog >>= λ c. validate_value text >> current_account p w >>= λ a.
        throw_if (not (is_ready a.state)) ServiceError.not_cached >> ok c.definition.name)
      λ name. write_account p.account name text now w

-- SetIdentity: an account that is not cached is made room for and loaded first.
unfoldable pub set_identity : ℕ → Option ℕ → Bytes → ℤ → Service → Outcome
set_identity id cookie text now w =
    guarded w
      (check_cookie cookie w.catalog >>= λ c.
        validate_account id
        >> (validate_value text
            >> (throw_if (is_negative now) ServiceError.invalid_timestamp >> ok c.definition.name)))
      λ name.
        if has id w.accounts
        then write_account id name text now w
        else (let w1 = evict w in
            guarded w1
              (throw_if (length w1.accounts == max_accounts) ServiceError.too_many_accounts)
              λ u. write_account id name text now (with_account id w1))

-- UserSet
unfoldable pub user_set : Identity → Bytes → Bytes → ℤ → Service → Outcome
user_set p name text now w =
    let cookie = find name w.catalog in
    guarded w
      (check_cookie cookie w.catalog >>= λ c.
        throw_if (not (int_eq c.definition.access public_access)) ServiceError.not_public)
      λ u. set_value p cookie text now w

-- Persisted, IdentityPersisted and IdentityError
unfoldable pub persisted : Identity → Service → Result ServiceError Bool
persisted p w = current_account p w >>= λ a. ok (is_ready a.state && not a.saving && is_nil a.dirty)

unfoldable pub identity_persisted : ℕ → Service → Result ServiceError Bool
identity_persisted id w =
    validate_account id
    >> ok (elim (lookup id w.accounts) [ none ↦ true | some a ↦ not a.saving && is_nil a.dirty ])

unfoldable pub identity_error : ℕ → Service → Result ServiceError Bytes
identity_error id w =
    validate_account id >> ok (elim (lookup id w.accounts) [ none ↦ [] | some a ↦ a.write_error ])

-- RetryLoad, Refresh and RetryWrites
unfoldable pub retry_load : Identity → Service → Outcome
retry_load p w =
    guarded w (current_account p w)
      λ a. (if is_failed a.state then on_account p.account (load (room w)) w else w, none)

unfoldable pub refresh : Identity → Service → Outcome
refresh p w =
    guarded w
      (current_account p w >>= λ a.
        throw_if (a.loading || a.saving || not (is_nil a.dirty)) ServiceError.not_idle)
      λ u. (on_account p.account (load (room w)) w, none)

abbrev pub save_again : Bool → Account → Account × List Task
save_again b a = save b (record a { write_failed = false })

unfoldable pub retry_writes : Service → Service
retry_writes w = each_account save_again (ids w.accounts) w

-- The completion of a task, on the owner's thread
abbrev pub complete : Job → Service → Service
complete (account_job id t) w = elim (lookup id w.accounts) [
  | none ↦ w
  | some a ↦ record w { accounts = put id (completed t a) w.accounts }
]
complete (register_job i d) w = w
complete (registered_job i f) w = record w { catalog = after_register i f w.catalog }
complete catalog_job w = w
complete (catalogued_job r) w = record w { catalog = after_catalog r w.catalog }

abbrev pub job_done : Job → Bool
job_done (account_job id t) = is_done t
job_done (register_job i d) = false
job_done (registered_job i f) = true
job_done catalog_job = false
job_done (catalogued_job r) = true

-- WorkQueue::Dispatch: the tasks that the worker has run, in their order
abbrev pub with_queue : List Job → Service → Service
with_queue jobs w = record w { queue = jobs }

unfoldable pub dispatched : List Job → Service → Service
dispatched [] w = w
dispatched (j ∷ rest) w =
    let next = dispatched rest (complete j (with_queue rest w)) in if job_done j then next else w

unfoldable pub dispatch : Service → Service
dispatch w = dispatched w.queue w

-- Pump, CanStop and Pending
unfoldable pub pump : Service → Service
pump w = let w1 = dispatch w in evict (each_account save (ids w1.accounts) w1)

abbrev pub all_clean : List (ℕ × Account) → Bool
all_clean [] = true
all_clean ((id, a) ∷ rest) = is_nil a.dirty && all_clean rest

unfoldable pub can_stop : Service → Service × Bool
can_stop w = let w1 = pump w in (w1, is_nil w1.queue && all_clean w1.accounts)

-- Register
abbrev pub register_as :
    Result ServiceError (Option ℕ) → Definition → Service → Service × Result ServiceError ℕ
register_as (err e) definition w = (w, err e)
register_as (ok (some i)) definition w = (w, ok i)
register_as (ok none) definition w =
    if room w
    then (let r = submitted definition w.catalog in
        (record w { catalog = r.0; queue = w.queue ++ register_job r.1 definition ∷ [] }, ok r.1))
    else (w, err ServiceError.queue_full)

unfoldable pub register : Definition → Service → Service × Result ServiceError ℕ
register definition w = register_as (registered definition w.catalog) definition w

-- LoadCatalog and RetryCatalog
unfoldable pub load_catalog : Service → Service
load_catalog w = if room w then record w { queue = w.queue ++ catalog_job ∷ [] } else record w {
  catalog = record w.catalog {
    state = State.failed;
    error = codes "Client preferences worker queue is full.";
  };
}

unfoldable pub retry_catalog : Service → Service
retry_catalog w =
    if is_failed w.catalog.state
    then load_catalog
        (record w { catalog = record w.catalog { state = State.loading_state; error = [] } })
    else w

-- The constructor
unfoldable pub start : Service
start = load_catalog (record {
  players = [];
  accounts = [];
  catalog = record { state = State.loading_state; error = []; cookies = []; heap = [] };
  queue = [];
})
