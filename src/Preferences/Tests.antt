-- ===== src/Preferences/Tests.antt =====
-- src/extensions/clientprefs: runs of the service over a storage in memory.
use source2root.Base.Text.{bytes_eq}
use source2root.Preferences.{clean, after_load, after_save, message, load, save, write}
use source2root.Preferences.Checks.{
  same_definition, validate, check_name, validate_account, validate_value,
}
use source2root.Preferences.Storage.{work}
use source2root.Preferences.Catalog.{
  registered, submitted, find, check_cookie, after_catalog, after_register, catalogue, catalogued,
}
use source2root.Preferences.Service.{
  register, set_value, user_set, current_account, sync, snapshot, kept_accounts, each_account,
  dispatch, dispatched, pump,
}
use source2root.Preferences.Service.Worker.{work_job, next_job}
use source2root.Preferences.Service.Runs.{step, accepted}
use source2root.Base.{
  ℕ, ◌^◌, ◌+◌, ◌≡◌, refl, sym, ap, ◌∙◌, Bool, true, false, Option, none, some, List, [], ◌∷◌,
  Result, ok, err, inl, inr, ◌⊎◌, ◌++◌, ==_iff, Bool-cases, if◌then◌else◌, ◌==◌,
}
use source2root.Base.Text.{Bytes, pos, codes}
use source2root.Base.Table.{lookup, put, bytes_key, nat_key, Distinct}
use source2root.Base.Table.Laws.{keys, lookup-put}
use source2root.Preferences.{Account, Value, Values, Failure, overlay, new_account, written}
use source2root.Preferences.Maps.{lookup-overlay, or_else}
use source2root.Preferences.Checks.{Definition, public_access}
use source2root.Preferences.Storage.{Storage, or_saved}
use source2root.Preferences.Service.{Identity, start, load_catalog, get, can_stop, evict}
use source2root.Preferences.Service.Refines.{named}
use source2root.Preferences.Service.Runs.{World, Call, run, log, replay, begin, preferences}
use source2root.Preferences.Service.Kept.{run-holds, begin-holds}
use source2root.Preferences.Service.Promises.{
  run-preferences, get-run, can_stop-stored, lookup-evict, or_default,
}

abbrev Memory : Type 0
Memory = List (ℕ × Values)

abbrev or_empty : Option Values → Values
or_empty none = []
or_empty (some v) = v

abbrev values_of : ℕ → Memory → Values
values_of id m = or_empty (lookup id m)

values_of-put :
    (i id : ℕ) (v : Values) (m : Memory)
    → values_of i (put id v m) ≡ (if id == i then v else values_of i m)
values_of-put i id v m = rw (lookup-put i id v m) (chosen (id == i) (lookup i m))
  where
    chosen :
        (b : Bool) (o : Option Values)
        → or_empty (if b then some v else o) ≡ (if b then v else or_empty o)
    chosen true o = refl
    chosen false o = refl

abbrev remember : Memory → ℕ → Values → Memory
remember m id v = put id (overlay v (values_of id m)) m

stored-remember :
    (m : Memory) (id : ℕ) (v : Values) (i : ℕ) (n : Bytes)
    → Distinct (keys v)
    → or_saved (lookup n (values_of i (remember m id v))) none ≡ (
        if id == i
        then or_saved (lookup n v) (or_saved (lookup n (values_of i m)) none)
        else or_saved (lookup n (values_of i m)) none)
stored-remember m id v i n d =
    rw (values_of-put i id (overlay v (values_of id m)) m) (go (Bool-cases (id == i)))
  where
    joined : (o p : Option Value) → or_saved (or_else o p) none ≡ or_saved o (or_saved p none)
    joined none p = refl
    joined (some w) p = refl

    go :
        ((id == i) ≡ true) ⊎ ((id == i) ≡ false)
        → or_saved (lookup n (if id == i then overlay v (values_of id m) else values_of i m)) none
          ≡ (if id == i
              then or_saved (lookup n v) (or_saved (lookup n (values_of i m)) none)
              else or_saved (lookup n (values_of i m)) none)
    go (inl q) =
        let names : id ≡ i = (==_iff id i).0 q in
        rw (q, sym names, lookup-overlay n v (values_of id m) d)
          (joined (lookup n v) (lookup n (values_of id m)))
    go (inr q) = rw q refl

abbrev or_right : Result Failure Values → Values
or_right (ok v) = v
or_right (err f) = []

-- A storage that never throws
abbrev memory : Storage Memory
memory = record {
  load_values = λ m id. ok (values_of id m);
  save_values = λ m id v. (remember m id v, none);
  register_cookie = λ m d. (m, none);
  stored_catalog = λ m. ok [];
  stored = λ m id n. or_saved (lookup n (values_of id m)) none;
  load_lem = λ m id v e n. ap (λ w. or_saved (lookup n (or_right w)) none) (sym e);
  save_lem = λ m m' id v d e i n.
      ap (λ (p : Memory × Option Failure). or_saved (lookup n (values_of i p.0)) none) (sym e)
      ∙ stored-remember m id v i n d;
  failed_lem = λ m m' id v f e i n. absurd (cc (ap (λ (p : Memory × Option Failure). p.1) e));
  register_lem = λ m d i n. refl;
}

-- An account, a cookie that players may set, and a run: the cookie is registered, the player joins,
-- sets the cookie twice and leaves while the second write is in the queue.
abbrev account : ℕ
account = 2 ^ 56 + 2 ^ 52 + 2 ^ 32 + 7

abbrev player : Identity
player = record { slot = pos 3; connection = 9; account = account }

abbrev volume : Bytes
volume = codes "volume"

abbrev volume_cookie : Definition
volume_cookie = record { name = volume; description = []; access = public_access }

abbrev joined_calls : List Call
joined_calls =
    Call.registers volume_cookie
    ∷ Call.works
    ∷ Call.works
    ∷ Call.pumps
    ∷ Call.syncs (player ∷ [])
    ∷ Call.works
    ∷ Call.pumps
    ∷ Call.user_sets player volume (codes "5") (pos 100)
    ∷ Call.works
    ∷ Call.user_sets player volume (codes "8") (pos 101)
    ∷ []

abbrev left_calls : List Call
left_calls = joined_calls ++ Call.syncs [] ∷ Call.pumps ∷ Call.works ∷ Call.pumps ∷ []

run-preferences_example :
    preferences memory (run memory left_calls (begin memory [])) account volume
    ≡ replay (log memory left_calls (begin memory [])) (memory.stored []) account volume
run-preferences_example = run-preferences memory left_calls [] account volume

last_write :
    replay (log memory left_calls (begin memory [])) (memory.stored []) account volume
    ≡ some (codes "8", pos 101)
unfolding start load_catalog run step log accepted register registered submitted find check_cookie
    same_definition validate check_name validate_account validate_value bytes_eq after_catalog
    after_register catalogue catalogued work_job next_job work load save write written overlay clean
    after_load after_save message get set_value user_set current_account sync snapshot kept_accounts
    evict each_account dispatch dispatched pump can_stop
last_write = refl

answers :
    get player (some 0) (run memory joined_calls (begin memory [])).service
    ≡ ok (codes "8", pos 101)
unfolding start load_catalog run step log accepted register registered submitted find check_cookie
    same_definition validate check_name validate_account validate_value bytes_eq after_catalog
    after_register catalogue catalogued work_job next_job work load save write written overlay clean
    after_load after_save message get set_value user_set current_account sync snapshot kept_accounts
    evict each_account dispatch dispatched pump can_stop
answers = refl

get-run_example :
    (codes "8", pos 101)
    ≡ or_default (
        replay
          (log memory joined_calls (begin memory []))
          (memory.stored [])
          account
          (named (some 0) (run memory joined_calls (begin memory [])).service))
get-run_example = get-run memory joined_calls [] player (some 0) answers

stops : (can_stop (run memory left_calls (begin memory [])).service).1 ≡ true
unfolding start load_catalog run step log accepted register registered submitted find check_cookie
    same_definition validate check_name validate_account validate_value bytes_eq after_catalog
    after_register catalogue catalogued work_job next_job work load save write written overlay clean
    after_load after_save message get set_value user_set current_account sync snapshot kept_accounts
    evict each_account dispatch dispatched pump can_stop
stops = refl

can_stop-stored_example :
    memory.stored (run memory left_calls (begin memory [])).base account volume
    ≡ replay (log memory left_calls (begin memory [])) (memory.stored []) account volume
can_stop-stored_example = can_stop-stored memory left_calls [] stops account volume

-- The player is there, and the load of the account is in the queue.
abbrev arrived : World Memory
arrived = run memory (Call.syncs (player ∷ []) ∷ []) (begin memory [])

lookup-evict_example :
    lookup account (evict arrived.service).accounts ≡ lookup account arrived.service.accounts
unfolding start load_catalog run step validate_account sync snapshot kept_accounts evict load
lookup-evict_example =
    lookup-evict (memory.stored []) arrived.service account
      (run-holds memory (Call.syncs (player ∷ []) ∷ []) (begin memory []) (begin-holds memory [])).0
      (inr refl)

abbrev edited : Account
edited = written volume (codes "5") (pos 100) new_account
