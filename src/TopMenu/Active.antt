-- ===== src/TopMenu/Active.antt =====
-- src/extensions/topmenus/catalog.cpp, Menu::Active: the newest object of each name, in order.
use source2root.Base.{
  ℕ, ◌&&◌, ◌||◌, Bool, true, false, not, Option, none, some, List, [], ◌∷◌, if◌then◌else◌, ltb,
  ◌==◌,
}
use source2root.Base.Text.{Bytes, int_le, bytes_eq}
use source2root.Base.Table.{lookup, put, bytes_key}
use source2root.Player.{int_eq}
use source2root.TopMenu.{Object, Menu, living, pruned}

-- std::string's <
unfoldable pub bytes_lt : Bytes → Bytes → Bool
bytes_lt s [] = false
bytes_lt [] (b ∷ t) = true
bytes_lt (a ∷ s) (b ∷ t) = ltb a b || a == b && bytes_lt s t

-- The comparison of std::sort
unfoldable pub before : Object → Object → Bool
before a b =
    if not (int_eq a.order b.order)
    then not (int_le b.order a.order)
    else if not (bytes_eq a.label b.label)
    then bytes_lt a.label b.label
    else bytes_lt a.key b.key

-- `latest`: the table after the loop
abbrev pub newer : Object → Option Object → Bool
newer o none = true
newer o (some current) = ltb current.sequence o.sequence

unfoldable pub latest : (ℕ → Bool) → List Object → List (Bytes × Object) → List (Bytes × Object)
latest running [] found = found
latest running (o ∷ rest) found =
    latest running rest (
      if o.live && running o.owner && newer o (lookup o.key found)
      then put o.key o found
      else found)

-- std::sort. No two objects have the same key, so the order of equals does not matter.
unfoldable pub insert : Object → List Object → List Object
insert o [] = o ∷ []
insert o (p ∷ rest) = let others = insert o rest in if before p o then p ∷ others else o ∷ p ∷ rest

unfoldable pub sort : List (Bytes × Object) → List Object
sort [] = []
sort ((k, o) ∷ rest) = insert o (sort rest)

-- Active: the menu without its closed objects, and the list
unfoldable pub active : (ℕ → Bool) → Menu → Menu × List Object
active running m = (pruned m, sort (latest running (living m.objects) []))
