-- ===== src/Permissions/Load/Tests.antt =====
-- src/permissions.cpp: Load at concrete files.
use source2root.Base.{◌≡◌, refl, some, [], ◌∷◌, ok, arith, false}
use source2root.Base.Text.{
  codes, bytes_eq, starts_with, ends_with, from_chars_int, from_chars_unsigned, scan_digits,
}
use source2root.KeyValues.{
  read_key_values, parse_rounds, at_rest, entry, token, quoted, bare, escaped, skip, skip_rounds,
  line_end, comment_end,
}
use source2root.Identity.{
  parse_steam_identity, account_spelling, number, valid_permission, permission_bytes,
}
use source2root.Permissions.{Permissions}
use source2root.Permissions.Load.{
  Directory, load, load_from, load_files, from_file, from_identity, root_of, lower, properties,
  fields_of, scalar_field, immunity_value, permissions_of, group_permissions, group_of, groups_of,
  admin_of, admins_of,
}
use source2root.Permissions.Load.Valid.{IsValid, load-IsValid}

abbrev files : Directory
files = record {
  admins = some (codes "Admins { \"Ada\" { identity \"[U:1:5]\" group Staff } }");
  groups = some (codes "Groups { staff { immunity \"7\" permissions { admin.kick 1 } } }");
  legacy = false;
}

abbrev loaded : Permissions
loaded =
    (
      76561197960265733,
      record {
        label = codes "Ada";
        group = codes "staff";
        permissions = codes "admin.kick" ∷ [];
        immunity = 7;
        root = false;
      },
    )
    ∷ []

load-files_test : load files [] ≡ (ok tt, loaded)
unfolding load load_from load_files from_file from_identity root_of lower properties fields_of
    scalar_field immunity_value permissions_of group_permissions group_of groups_of admin_of
    admins_of read_key_values parse_rounds at_rest entry token quoted bare escaped skip skip_rounds
    line_end comment_end parse_steam_identity account_spelling number valid_permission
    permission_bytes bytes_eq starts_with ends_with from_chars_int from_chars_unsigned scan_digits
load-files_test = refl

load-IsValid_example : IsValid (load files []).1
load-IsValid_example =
    load-IsValid files [] (record { sound = tt; distinct = tt; bounded = omega arith })
