-- ===== src/Config/Copy.antt =====
-- src/config.cpp: the values that Value prints are read back by Set and SetAll.
use source2root.Base.{ℕ, ◌≤◌, ◌≡◌, sym, arith, ap, ◌∙◌, some, [], ok, length, le→ltb-false}
use mathlib.Core.List.{append-nil}
use source2root.Base.Text.{Bytes, bytes_eq, from_chars_int, to_string, pos, int_max}
use source2root.Base.Text.Decimal.{from_chars_int-to_string}
use source2root.Config.{
  CoreSettings, trigger_field, number_field, set_field, set_all, show_activity_name,
  public_trigger_name, silent_trigger_name, debug_name,
}
use source2root.Config.Valid.{IsValid, IsTrigger}

from_chars_int_whole : (n : ℕ) → n ≤ int_max → from_chars_int (to_string n) ≡ some (pos n, [])
from_chars_int_whole n h =
    ap from_chars_int (sym (append-nil (to_string n))) ∙ from_chars_int-to_string n [] h tt

number_field-to_string :
    (maximum n : ℕ) → maximum ≤ int_max → n ≤ maximum → number_field maximum (to_string n) ≡ ok n
unfolding number_field
number_field-to_string maximum n bound h =
    rw (from_chars_int_whole n (omega arith), le→ltb-false maximum n h)

trigger_field-eq : (t : Bytes) → IsTrigger t → trigger_field t ≡ ok t
unfolding trigger_field
trigger_field-eq t h = rw (le→ltb-false 8 (length t) h.0, h.1)

set_activity :
    (n : ℕ) (s : CoreSettings)
    → n ≤ 15
    → set_field show_activity_name (to_string n) s ≡ ok (record s { activity = n })
unfolding set_field bytes_eq
set_activity n s h = rw (number_field-to_string 15 n (omega arith) h)

set_debug :
    (n : ℕ) (s : CoreSettings)
    → n ≤ 1
    → set_field debug_name (to_string n) s ≡ ok (record s { debug = n })
unfolding set_field bytes_eq
set_debug n s h = rw (number_field-to_string 1 n (omega arith) h)

set_public_trigger :
    (t : Bytes) (s : CoreSettings)
    → IsTrigger t
    → set_field public_trigger_name t s ≡ ok (record s { public_trigger = t })
unfolding set_field bytes_eq
set_public_trigger t s h = rw (trigger_field-eq t h)

set_silent_trigger :
    (t : Bytes) (s : CoreSettings)
    → IsTrigger t
    → set_field silent_trigger_name t s ≡ ok (record s { silent_trigger = t })
unfolding set_field bytes_eq
set_silent_trigger t s h = rw (trigger_field-eq t h)

-- The values of valid settings, given to SetAll on any others, make them the same.
pub set_all-values :
    (s other : CoreSettings)
    → IsValid s
    → set_all (to_string s.activity) s.public_trigger s.silent_trigger (to_string s.debug) other
      ≡ ok s
unfolding set_all
set_all-values s other ((a, d, p, q), differ) = rw (set_activity s.activity other a) (
    rw (set_public_trigger s.public_trigger (record other { activity = s.activity }) p) (
      rw
        (set_silent_trigger s.silent_trigger
          (record s { debug = other.debug; silent_trigger = other.silent_trigger }) q)
        (rw (set_debug s.debug (record s { debug = other.debug }) d, differ))))
