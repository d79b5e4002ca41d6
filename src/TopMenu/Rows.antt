-- ===== src/TopMenu/Rows.antt =====
-- src/extensions/topmenus/catalog.cpp, Menu::Build: no row shows what its player may not see.
use source2root.Base.{
  ℕ, suc, zero, ◌+◌, ◌-◌, ◌*◌, ◌≡◌, ◌⊎◌, inl, inr, refl, sym, ap, ◌∙◌, ◌&&◌, Bool, true, false, not,
  none, some, List, [], ◌∷◌, Result, ok, err, ◌>>=◌, All, All-append, arith, ltb, ◌==◌, is_nil,
  length, take, drop, map, Bool-cases, Option-cases, if-either, &&-true, Ensures, Ensures-ok,
  >>=-Ensures,
}
use source2root.Base.Text.{Bytes, bytes_eq, bytes_eq_iff, codes}
use source2root.Base.Table.{lookup, bytes_key}
use source2root.TopMenu.{MenuError, Object, Menu, is_category, check_key}
use source2root.TopMenu.Active.{active}
use source2root.TopMenu.Objects.{Among}
use source2root.TopMenu.Shown.{Answered, Answered-ask_categories, Answered-ask_items, active_unique}
use source2root.TopMenu.Build.{
  Access, enabled, is_enabled, is_hidden, Target, to_object, to_page, to_back, to_nothing, Row,
  Page, Visibility, access_of, Callback, ask_categories, ask_items, find_category, page_title,
  is_shown, shown, per_page, object_row, page_number, page_objects, row_if, page_rows, build,
}

is_nil-nil : (s : Bytes) → is_nil s ≡ true → s ≡ []
is_nil-nil [] h = refl
is_nil-nil (c ∷ s) h = cc

is_enabled-enabled : (a : Access) → is_enabled a ≡ true → a ≡ enabled
is_enabled-enabled Access.hidden h = cc
is_enabled-enabled Access.enabled h = refl
is_enabled-enabled Access.disabled h = cc

module _ {A : Type 0} (P : A → Type 0) where
  All-take : (n : ℕ) (l : List A) → All P l → All P (take n l)
  All-take zero l h = tt
  All-take (suc n) [] h = tt
  All-take (suc n) (x ∷ l) h = (h.0, All-take n l h.1)

  All-drop : (n : ℕ) (l : List A) → All P l → All P (drop n l)
  All-drop zero l h = h
  All-drop (suc n) [] h = tt
  All-drop (suc n) (x ∷ l) h = All-drop n l h.1

module _ (answer : Object → Access) (objects : List Object) (name : Bytes) where
  -- The category of the page is listed and enabled for the player.
  abbrev pub OpenCategory : Type 0
  OpenCategory =
      (c : Object) × Among c objects
      × (is_category c.kind ≡ true)
      × (c.key ≡ name)
      × (answer c ≡ enabled)

  -- An object has its place on the page of the category, or of none.
  abbrev pub Fits : Object → Type 0
  Fits o =
      ((is_category o.kind ≡ false) × (o.parent ≡ name) × ((name ≡ []) ⊎ OpenCategory))
      ⊎ ((is_category o.kind ≡ true) × (name ≡ []))

  -- The row of an object
  abbrev pub Permits : Row → Object → Type 0
  Permits r o =
      Among o objects
      × (is_hidden (answer o) ≡ false)
      × (r.on ≡ is_enabled (answer o))
      × (r.label ≡ o.label)
      × Fits o

  abbrev pub RowHolds : Row → Type 0
  RowHolds r = elim r.target [
    | to_object s ↦ (o : Object) × (o.sequence ≡ s) × Permits r o
    | to_page p ↦ Unit
    | to_back ↦ Unit
    | to_nothing ↦ Unit
  ]

  module _ (unique : (o p : Object) → Among o objects → Among p objects → o.key ≡ p.key → o ≡ p)
      (v : Visibility) (answered : Answered answer objects v) where
    -- What the table holds for a listed object is its answer.
    access_of-answer :
        (o : Object)
        → Among o objects
        → is_hidden (access_of v o.key) ≡ false
        → answer o ≡ access_of v o.key
    access_of-answer o among shows = elim (Option-cases (lookup o.key v)) [
      | inl e ↦ absurd (let shows' = rw e at shows in cc shows')
      | inr (a, e) ↦
          let shows' = rw e at shows in
          let (p, there, same, says) = answered o.key a e shows' in
          rw (e, unique o p among there (sym same)) says
    ]

    find_category-OpenCategory :
        (l : List Object) (c : Object)
        → ((o : Object) → Among o l → Among o objects)
        → find_category name v l ≡ some c
        → OpenCategory
    find_category-OpenCategory [] c w e = absurd (cc e)
    find_category-OpenCategory (o ∷ l) c w e =
        elim (Bool-cases
          (bytes_eq o.key name && is_category o.kind && is_enabled (access_of v o.key))) [
            | inl q ↦
                let (two, on) =
                  &&-true (bytes_eq o.key name && is_category o.kind)
                    (is_enabled (access_of v o.key)) q in
                let (same, kind) = &&-true (bytes_eq o.key name) (is_category o.kind) two in
                let yes : access_of v o.key ≡ enabled = is_enabled-enabled (access_of v o.key) on in
                (
                  o,
                  w o (inl refl),
                  kind,
                  (bytes_eq_iff o.key name).0 same,
                  access_of-answer o (w o (inl refl)) (rw yes refl) ∙ yes,
                )
            | inr q ↦ find_category-OpenCategory l c (λ p a. w p (inr a)) (rw q at e)
          ]

    module _ (place : (name ≡ []) ⊎ OpenCategory) where
      Fits-is_shown : (o : Object) → is_shown name v objects o ≡ true → Fits o
      Fits-is_shown o s = elim (Bool-cases (is_category o.kind)) [
        | inl q ↦ inr (q, is_nil-nil name (ground (arith, s, q)))
        | inr q ↦
            let same : bytes_eq o.parent name ≡ true = ground (arith, s, q) in
            inl (q, (bytes_eq_iff o.parent name).0 same, place)
      ]

      RowHolds-object :
          (o : Object)
          → Among o objects
          → is_shown name v objects o ≡ true
          → RowHolds (object_row v o)
      RowHolds-object o among s =
          let seen : is_hidden (access_of v o.key) ≡ false = ground (arith, s) in
          let says = access_of-answer o among seen in
          (
            o,
            refl,
            (among, ap is_hidden says ∙ seen, ap is_enabled (sym says), refl, Fits-is_shown o s),
          )

      abbrev Shown : Object → Type 0
      Shown o = RowHolds (object_row v o)

      All-shown :
          (l : List Object)
          → ((o : Object) → Among o l → Among o objects)
          → All Shown (shown name v objects l)
      unfolding shown
      All-shown [] w = tt
      All-shown (o ∷ l) w =
          if-either (All Shown) (is_shown name v objects o)
            (λ s. (RowHolds-object o (w o (inl refl)) s, All-shown l (λ p a. w p (inr a))))
            (λ s. All-shown l (λ p a. w p (inr a)))

      All-map : (l : List Object) → All Shown l → All RowHolds (map (object_row v) l)
      All-map [] h = tt
      All-map (o ∷ l) h = (h.0, All-map l h.1)

      All-row_if :
          (b : Bool) (label : Bytes) (on : Bool) (t : Target)
          → RowHolds (record { label = label; on = on; target = t })
          → All RowHolds (row_if b label on t)
      All-row_if true label on t h = (h, tt)
      All-row_if false label on t h = tt

      RowHolds-page_rows :
          (page : ℕ) → All RowHolds (page_rows name v page (shown name v objects objects))
      unfolding page_rows page_objects
      RowHolds-page_rows page =
          let listed = shown name v objects objects in
          All-append RowHolds (map (object_row v) (page_objects page listed)) _
            (All-map (page_objects page listed) (
              All-take Shown per_page (drop (page * per_page) listed)
                (All-drop Shown (page * per_page) listed (All-shown objects (λ o a. a)))))
            (All-append RowHolds
              (row_if (is_nil listed) (codes "No available actions") false to_nothing) _
              (All-row_if (is_nil listed) (codes "No available actions") false to_nothing tt)
              (All-append RowHolds
                (row_if (not (page == 0)) (codes "Previous page") true (to_page (page - 1))) _
                (All-row_if (not (page == 0)) (codes "Previous page") true (to_page (page - 1)) tt)
                (All-append RowHolds
                  (row_if (ltb (page * per_page + per_page) (length listed)) (codes "Next page")
                    true (to_page (suc page)))
                  _
                  (All-row_if (ltb (page * per_page + per_page) (length listed)) (codes "Next page")
                    true (to_page (suc page)) tt)
                  (All-row_if (not (is_nil name)) (codes "Back to categories") true to_back tt))))

    place_of_title :
        (title : Bytes)
        → Ensures (λ t. (name ≡ []) ⊎ OpenCategory) (page_title title name v objects)
    place_of_title title =
        if-either (Ensures (λ (t : Bytes). (name ≡ []) ⊎ OpenCategory)) (is_nil name)
          (λ e. inl (is_nil-nil name e)) (λ e. found (Option-cases (find_category name v objects)))
      where
        found :
            (find_category name v objects ≡ none)
              ⊎ ((c : Object) × (find_category name v objects ≡ some c))
            → Ensures
                (λ t. (name ≡ []) ⊎ OpenCategory)
                (elim (find_category name v objects) [
                  | none ↦ err MenuError.no_category
                  | some o ↦ ok o.label
                ])
        found (inl e) = rw e tt
        found (inr (c, e)) =
            let category = find_category-OpenCategory objects c (λ o a. a) e in rw e (inr category)

module _ (name : Bytes) (requested : ℕ) (running : ℕ → Bool) (access : Callback) (m : Menu)
    (answer : Object → Access) where
  -- Where the callback answers by object and leaves the menu, every row of the page that stands for
  -- an object stands for one that Active lists, that the callback does not hide, that is enabled as
  -- it says, with its label, and that belongs on the page: with no category a category or an item of
  -- none, and else an item of this category, which is listed and enabled.
  pub build-RowHolds :
      ((o : Object) (m : Menu) → access o m ≡ (answer o, m))
      → {m' : Menu} {page : Page} → build name requested running access m ≡ ok (m', page)
      → All (RowHolds answer (active running m).1 name) page.rows
  unfolding build
  build-RowHolds pure e = Ensures-ok P _ whole e
    where
      objects : List Object
      objects = (active running m).1

      P : Menu × Page → Type 0
      P r = All (RowHolds answer objects name) r.1.rows

      finish : Menu × Visibility → Bytes → Result MenuError (Menu × Page)
      finish i title =
          let listed = shown name i.1 objects objects in
          let page = page_number requested listed in
          ok (
            i.0,
            record {
              title = title;
              parent = name;
              rows = page_rows name i.1 page listed;
              page = page;
              revision = m.revision;
            },
          )

      titled : Menu × Visibility → Result MenuError (Menu × Page)
      titled i = page_title m.title name i.1 objects >>= finish i

      items : Menu × Visibility → Result MenuError (Menu × Page)
      items c = ask_items access m.revision objects c.0 c.1 >>= titled

      V : Menu × Visibility → Type 0
      V r = Answered answer objects r.1

      whole : Ensures P (build name requested running access m)
      whole =
          >>=-Ensures P (check_key name true)
            (λ u. ask_categories access m.revision objects (active running m).0 [] >>= items)
            λ u q.
              >>=-Ensures P (ask_categories access m.revision objects (active running m).0 []) items
                λ c qc.
                  let vc =
                    Ensures-ok V (ask_categories access m.revision objects (active running m).0 [])
                      (Answered-ask_categories answer objects access m.revision pure objects
                        (active running m).0 [] (λ o a. a) (λ key a f. absurd (cc f)))
                      qc in
                  >>=-Ensures P (ask_items access m.revision objects c.0 c.1) titled λ i qi.
                    let vi =
                      Ensures-ok V (ask_items access m.revision objects c.0 c.1)
                        (Answered-ask_items answer objects access m.revision pure objects c.0 c.1
                          (λ o a. a) vc)
                        qi in
                    >>=-Ensures P (page_title m.title name i.1 objects) (finish i) λ t qt.
                      RowHolds-page_rows answer objects name (active_unique running m) i.1 vi
                        (Ensures-ok (λ (t : Bytes). (name ≡ []) ⊎ OpenCategory answer objects name)
                          (page_title m.title name i.1 objects)
                          (place_of_title answer objects name (active_unique running m) i.1 vi
                            m.title)
                          qt)
                        (page_number requested (shown name i.1 objects objects))
