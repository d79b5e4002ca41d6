-- ===== src/Preferences/Service/Runs.antt =====
-- src/extensions/clientprefs: the service, its worker and its storage run together.
use source2root.Base.{ℕ, Option, none, some, List, [], ◌∷◌, ◌++◌, if◌then◌else◌, ◌==◌}
use source2root.Base.Text.{Bytes, ℤ}
use source2root.Base.Table.{bytes_key, nat_key}
use source2root.Preferences.Checks.{Definition}
use source2root.Preferences.Storage.{Storage}
use source2root.Preferences.Catalog.{find}
use source2root.Preferences.Invariant.{Stored}
use source2root.Preferences.Service.{
  Service, Identity, Outcome, start, sync, register, retry_catalog, retry_load, retry_writes,
  refresh, pump, set_value, set_identity, user_set,
}
use source2root.Preferences.Service.Worker.{next_job}
use source2root.Preferences.Service.Sound.{view, IsSoundService}
use source2root.Preferences.Service.Refines.{named}

-- The service and the database
pub record World (S : Type 0) : Type 0 where
  pub service : Service
  pub base : S

-- One operation of the owner's thread, or one task of the worker
pub data Call : Type 0 where
  syncs : List Identity → Call
  sets : Identity → Option ℕ → Bytes → ℤ → Call
  sets_identity : ℕ → Option ℕ → Bytes → ℤ → Call
  user_sets : Identity → Bytes → Bytes → ℤ → Call
  retries_load refreshes : Identity → Call
  registers : Definition → Call
  retries_writes retries_catalog pumps works : Call

-- An accepted write: the account, the name and the value
abbrev pub Write : Type 0
Write = ℕ × Bytes × (Bytes × ℤ)

abbrev pub unless_thrown : Outcome → Write → List Write
unless_thrown (w, none) x = x ∷ []
unless_thrown (w, some e) x = []

-- The write that a call has accepted, if any
unfoldable pub accepted : Call → Service → List Write
accepted (sets p cookie text now) w =
    unless_thrown (set_value p cookie text now w) (p.account, named cookie w, (text, now))
accepted (sets_identity id cookie text now) w =
    unless_thrown (set_identity id cookie text now w) (id, named cookie w, (text, now))
accepted (user_sets p name text now) w =
    unless_thrown (user_set p name text now w)
      (p.account, named (find name w.catalog) w, (text, now))
accepted (syncs ps) w = []
accepted (retries_load p) w = []
accepted (refreshes p) w = []
accepted (registers d) w = []
accepted retries_writes w = []
accepted retries_catalog w = []
accepted pumps w = []
accepted works w = []

-- The table of preferences after the writes, the oldest first
abbrev pub replay : List Write → (ℕ → Stored) → ℕ → Stored
replay [] f = f
replay ((id, name, v) ∷ rest) f =
    replay rest
      (λ j n. if id == j then (if bytes_key.equal name n then some v else f j n) else f j n)

module _ {S : Type 0} (storage : Storage S) where
  abbrev of_service : (Service → Service) → World S → World S
  of_service f w = record w { service = f w.service }

  unfoldable pub step : Call → World S → World S
  step (syncs ps) = of_service λ w. (sync ps w).0
  step (sets p cookie text now) = of_service λ w. (set_value p cookie text now w).0
  step (sets_identity id cookie text now) = of_service λ w. (set_identity id cookie text now w).0
  step (user_sets p name text now) = of_service λ w. (user_set p name text now w).0
  step (retries_load p) = of_service λ w. (retry_load p w).0
  step (refreshes p) = of_service λ w. (refresh p w).0
  step (registers d) = of_service λ w. (register d w).0
  step retries_writes = of_service retry_writes
  step retries_catalog = of_service retry_catalog
  step pumps = of_service pump
  step works = λ w.
      let r = next_job storage w.base w.service.queue in
      record { service = record w.service { queue = r.1 }; base = r.0 }

  unfoldable pub run : List Call → World S → World S
  run [] w = w
  run (c ∷ rest) w = run rest (step c w)

  unfoldable pub log : List Call → World S → List Write
  log [] w = []
  log (c ∷ rest) w = accepted c w.service ++ log rest (step c w)

  abbrev pub preferences : World S → ℕ → Stored
  preferences w = view w.service (storage.stored w.base)

  abbrev pub IsSoundWorld : World S → Type 0
  IsSoundWorld w = IsSoundService w.service (storage.stored w.base)

  abbrev pub begin : S → World S
  begin s = record { service = start; base = s }
