-- ===== src/Preferences.antt =====
-- src/extensions/clientprefs: the cached preferences of the accounts, their worker and their storage.
-- Here: service.h's records and service.cpp's operations on one account. A function gets `room`,
-- whether the queue takes the task, and gives the tasks it submits.
pub mod Checks
pub mod Storage
pub mod Maps
pub mod Catalog
pub mod Service
pub mod Invariant
mod Tests
use source2root.Base.{
  ℕ, suc, ◌^◌, ◌-◌, ◌&&◌, ◌||◌, Bool, true, false, not, Option, none, some, List, [], ◌∷◌, Result,
  ok, err, ◌>>◌, throw_if, if◌then◌else◌, ◌==◌, is_nil, take,
}
use source2root.Base.Text.{Bytes, ℤ, pos, negsuc, codes}
use source2root.Base.Table.{lookup, put, without, bytes_key}

-- What a worker's exception tells
pub data Failure : Type 0 where
  exception : Bytes → Failure
  unknown : Failure

-- Message
unfoldable pub message : Option Failure → Bytes
message none = []
message (some (exception what)) = take 4095 what
message (some unknown) = codes "Client preferences worker failed."

-- db::Error of the service
pub data ServiceError : Type 0 where
  invalid_name invalid_description invalid_access invalid_account invalid_value : ServiceError
  invalid_timestamp no_connection foreign_cookie incomplete_cookie not_cached : ServiceError
  too_many_connections invalid_connection too_many_accounts not_public not_idle missing_account :
      ServiceError
  other_definition too_many_cookies queue_full : ServiceError
  failed_cookie : Bytes → ServiceError

pub data State : Type 0 where
  loading_state ready failed : State

pub record Value : Type 0 where
  pub text : Bytes
  pub updated : ℤ
  pub revision : ℕ

abbrev pub Values : Type 0
Values = List (Bytes × Value)

-- Service::Account
pub record Account : Type 0 where
  pub state : State
  pub values : Values
  pub dirty : Values
  pub revision : ℕ
  pub loading : Bool
  pub saving : Bool
  pub write_failed : Bool
  pub error : Bytes
  pub write_error : Bytes

abbrev pub new_account : Account
new_account = record {
  state = loading_state;
  values = [];
  dirty = [];
  revision = 0;
  loading = false;
  saving = false;
  write_failed = false;
  error = [];
  write_error = [];
}

-- The work of Load and of Save, before and after the worker has run it. What was captured by value
-- stands in the task.
pub data Task : Type 0 where
  to_load : Task
  has_loaded : Result Failure Values → Task
  to_save : Values → Task
  has_saved : Values → Option Failure → Task

abbrev pub is_negative : ℤ → Bool
is_negative (pos n) = false
is_negative (negsuc n) = true

abbrev pub max_revision : ℕ
max_revision = 2 ^ 64 - 1

-- Load
unfoldable pub load : Bool → Account → Account × List Task
load room a =
    if a.loading
    then (a, [])
    else if room
    then (record a { loading = true; state = loading_state }, to_load ∷ [])
    else (record a { state = failed; error = codes "Client preferences worker queue is full." }, [])

-- for (const auto& [name, value] : dirty) values[name] = value
unfoldable pub overlay : Values → Values → Values
overlay [] values = values
overlay ((name, value) ∷ dirty) values = overlay dirty (put name value values)

-- The completion of Load
unfoldable pub after_load : Result Failure Values → Account → Account
after_load (ok values) a = record a {
  loading = false;
  error = [];
  state = ready;
  values = overlay a.dirty values;
}
after_load (err failure) a = record a {
  loading = false;
  error = message (some failure);
  state = failed;
}

-- Save
unfoldable pub save : Bool → Account → Account × List Task
save room a =
    if a.saving || a.write_failed || is_nil a.dirty
    then (a, [])
    else if room
    then (record a { saving = true; error = []; write_error = [] }, to_save a.dirty ∷ [])
    else (a, [])

-- current != end() && current->second.revision == value.revision
abbrev pub same_write : Value → Option Value → Bool
same_write value none = false
same_write value (some current) = current.revision == value.revision

-- The completion of Save: the entries that no later write has replaced are clean.
unfoldable pub clean : Values → Values → Values
clean [] dirty = dirty
clean ((name, value) ∷ batch) dirty =
    clean batch (if same_write value (lookup name dirty) then without name dirty else dirty)

unfoldable pub after_save : Values → Option Failure → Account → Account
after_save batch none a = record a {
  saving = false;
  error = [];
  write_failed = false;
  write_error = [];
  dirty = clean batch a.dirty;
}
after_save batch (some failure) a = record a {
  saving = false;
  error = message (some failure);
  write_failed = true;
  write_error = message (some failure);
}

-- The completion of a task
abbrev pub completed : Task → Account → Account
completed to_load a = a
completed (has_loaded r) a = after_load r a
completed (to_save batch) a = a
completed (has_saved batch f) a = after_save batch f a

-- Write, up to the call of Save
unfoldable pub written : Bytes → Bytes → ℤ → Account → Account
written name text now a =
    let value : Value = record { text = text; updated = now; revision = suc a.revision } in
    record a {
      revision = suc a.revision;
      values = put name value a.values;
      dirty = put name value a.dirty;
      write_failed = false;
    }

-- Write
unfoldable pub write :
    Bool → Bytes → Bytes → ℤ → Account → Result ServiceError (Account × List Task)
write room name text now a =
    throw_if (is_negative now || a.revision == max_revision) ServiceError.invalid_timestamp
    >> ok (save room (written name text now a))
