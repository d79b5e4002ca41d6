-- ===== src/Preferences/Checks.antt =====
-- src/extensions/clientprefs/store.cpp: what the service and the store accept.
use source2root.Base.{
  ℕ, ◌&&◌, ◌||◌, ◌/◌, ◌%◌, ◌^◌, Bool, not, Result, throw_if, ◌>>◌, ltb, leb, ◌==◌, is_nil, length,
  all, any,
}
use source2root.Base.Text.{Bytes, ℤ, pos, int_le, bytes_eq}
use source2root.Player.{int_eq}
use source2root.Preferences.{ServiceError}

-- Access is the enum's number, which a row of the database gives as it stands there.
abbrev pub public_access : ℤ
public_access = pos 0

abbrev pub private_access : ℤ
private_access = pos 2

pub record Definition : Type 0 where
  pub name : Bytes
  pub description : Bytes
  pub access : ℤ

-- Definition::operator==
unfoldable pub same_definition : Definition → Definition → Bool
same_definition a b =
    bytes_eq a.name b.name && bytes_eq a.description b.description && int_eq a.access b.access

abbrev pub is_name_byte : ℕ → Bool
is_name_byte c =
    leb 97 c && leb c 122
    || leb 65 c && leb c 90
    || leb 48 c && leb c 57
    || c == 95
    || c == 45
    || c == 46

-- Name
unfoldable pub check_name : Bytes → Result ServiceError (Unit {0})
check_name name =
    throw_if (is_nil name || ltb 30 (length name) || not (all is_name_byte name))
      ServiceError.invalid_name

abbrev pub is_text : Bytes → Bool
is_text text = not (ltb 255 (length text) || any (λ c. c == 0) text)

-- Validate
unfoldable pub validate : Definition → Result ServiceError (Unit {0})
validate cookie =
    check_name cookie.name
    >> (throw_if (not (is_text cookie.description)) ServiceError.invalid_description
        >> throw_if
            (not (int_le public_access cookie.access) || not (int_le cookie.access private_access))
            ServiceError.invalid_access)

-- ValidateAccount
unfoldable pub validate_account : ℕ → Result ServiceError (Unit {0})
validate_account account =
    throw_if
      (not (account / 2 ^ 56 == 1)
        || not (account / 2 ^ 52 % 16 == 1)
        || not (account / 2 ^ 32 % 2 ^ 20 == 1)
        || account % 2 ^ 32 == 0)
      ServiceError.invalid_account

-- ValidateValue
unfoldable pub validate_value : Bytes → Result ServiceError (Unit {0})
validate_value value = throw_if (not (is_text value)) ServiceError.invalid_value
