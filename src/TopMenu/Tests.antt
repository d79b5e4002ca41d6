-- ===== src/TopMenu/Tests.antt =====
-- src/extensions/topmenus/catalog.cpp: a menu with a category, its items and a newer registration.
use source2root.Base.{
  ℕ, suc, ◌≤◌, ◌≡◌, refl, inl, inr, Bool, true, not, [], ◌∷◌, ok, All, ◌==◌, if◌then◌else◌,
}
use source2root.Base.Text.{Bytes, pos, codes, bytes_eq}
use source2root.TopMenu.{Kind, Object, Menu, new_menu, check_key}
use source2root.TopMenu.Active.{active, latest, sort, insert, before, bytes_lt}
use source2root.TopMenu.Objects.{Among}
use source2root.TopMenu.Sorted.{active-newest, active_complete}
use source2root.TopMenu.Build.{
  Target, Access, Callback, Page, build, ask_categories, ask_items, shown, page_number,
  page_objects, page_rows,
}
use source2root.TopMenu.Pages.{
  first_pages, last_page, first_pages-last_page, Leads, page_rows-Leads,
}
use source2root.TopMenu.Rows.{RowHolds, build-RowHolds}

abbrev object : Kind → Bytes → Bytes → ℕ → ℕ → Object
object kind key parent owner sequence = record {
  kind = kind;
  key = key;
  parent = parent;
  label = key;
  permission = [];
  plugin = codes "admin";
  owner = owner;
  sequence = sequence;
  order = pos 0;
  live = true;
}

abbrev players : Object
players = object Kind.category (codes "players") [] 1 1

abbrev kick : Object
kick = object Kind.item (codes "kick") (codes "players") 1 2

abbrev newer_kick : Object
newer_kick = object Kind.item (codes "kick") (codes "players") 2 3

abbrev ban : Object
ban = object Kind.item (codes "ban") (codes "players") 1 4

abbrev menu : Menu
menu = record (new_menu (codes "admin") (codes "Admin")) {
  next_sequence = 5;
  objects = players ∷ kick ∷ newer_kick ∷ ban ∷ [];
}

abbrev running : ℕ → Bool
running owner = not (owner == 0)

-- The player may kick and may not ban.
abbrev answer : Object → Access
answer o = if bytes_eq o.key (codes "ban") then Access.hidden else Access.enabled

abbrev access : Callback
access o m = (answer o, m)

active-newest_example :
    Among newer_kick menu.objects
    × (true ≡ true)
    × (running 2 ≡ true)
    × ((p : Object)
        → Among p menu.objects
        → p.live ≡ true
        → running p.owner ≡ true
        → p.key ≡ newer_kick.key
        → p.sequence ≤ 3)
unfolding active latest sort insert before bytes_lt bytes_eq
active-newest_example = active-newest running menu newer_kick (inr (inl refl))

active_complete_example : (o : Object) × Among o (active running menu).1 × (o.key ≡ kick.key)
active_complete_example = active_complete running menu kick (inr (inl refl)) refl refl

first_pages-last_page_example :
    first_pages [] [] menu.objects (suc (last_page menu.objects)) ≡ 1 ∷ 2 ∷ 3 ∷ 4 ∷ []
first_pages-last_page_example = first_pages-last_page [] [] menu.objects

page_rows-Leads_example :
    All
      (λ r. Leads [] [] menu.objects (page_number 7 menu.objects) r.target)
      (page_rows [] [] (page_number 7 menu.objects) menu.objects)
page_rows-Leads_example = page_rows-Leads [] [] menu.objects 7

-- The page of the category, without the item that is hidden
abbrev kick_page : Page
kick_page = record {
  title = codes "players";
  parent = codes "players";
  rows =
      record { label = codes "kick"; on = true; target = Target.to_object 3 }
      ∷ record { label = codes "Back to categories"; on = true; target = Target.to_back }
      ∷ [];
  page = 0;
  revision = 1;
}

built : build (codes "players") 9 running access menu ≡ ok (menu, kick_page)
unfolding build check_key ask_categories ask_items shown page_number page_objects page_rows active
    latest sort insert before bytes_lt bytes_eq
built = refl

build-RowHolds_example :
    All (RowHolds answer (active running menu).1 (codes "players")) kick_page.rows
build-RowHolds_example =
    build-RowHolds (codes "players") 9 running access menu answer (λ o m. refl) built
