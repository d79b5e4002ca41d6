-- ===== src/TopMenu/Pages.antt =====
-- src/extensions/topmenus/catalog.cpp, Menu::Build: the pages together.
use mathlib.Core.List.{append-nil}
use source2root.Base.{
  ℕ, zero, suc, ◌+◌, ◌-◌, ◌*◌, ◌/◌, ◌≤◌, ◌<◌, ◌≡◌, ◌⊎◌, inl, inr, refl, sym, ap, ◌∙◌, Bool, true,
  false, not, min, List, [], ◌∷◌, ◌++◌, All, arith, ltb, ◌==◌, is_nil, length, take, drop, map,
  All-append, ltb→lt,
}
use source2root.Base.Text.{Bytes, codes}
use source2root.TopMenu.{Object}
use source2root.TopMenu.Build.{
  Visibility, Row, Target, to_object, to_page, to_back, to_nothing, object_row, page_rows,
  page_objects, page_number, row_if, per_page,
}

-- The objects that the rows of a page stand for, by their sequences
abbrev pub row_objects : List Row → List ℕ
row_objects [] = []
row_objects (r ∷ rest) = elim r.target [
  | to_object s ↦ s ∷ row_objects rest
  | to_page p ↦ row_objects rest
  | to_back ↦ row_objects rest
  | to_nothing ↦ row_objects rest
]

abbrev pub sequences : List Object → List ℕ
sequences [] = []
sequences (o ∷ rest) = o.sequence ∷ sequences rest

-- The objects on the first n pages
abbrev pub first_pages : Bytes → Visibility → List Object → ℕ → List ℕ
first_pages name v objects zero = []
first_pages name v objects (suc n) =
    first_pages name v objects n ++ row_objects (page_rows name v n objects)

-- The page number that is given where every page is asked for
abbrev pub last_page : List Object → ℕ
last_page objects = page_number (length objects) objects

row_objects-append : (a b : List Row) → row_objects (a ++ b) ≡ row_objects a ++ row_objects b
row_objects-append [] b = refl
row_objects-append (r ∷ a) b = step r.target (row_objects-append a b)
  where
    step :
        (t : Target)
        → row_objects (a ++ b) ≡ row_objects a ++ row_objects b
        → row_objects (record { label = r.label; on = r.on; target = t } ∷ (a ++ b))
          ≡ row_objects (record { label = r.label; on = r.on; target = t } ∷ a) ++ row_objects b
    step (to_object s) e = ap (λ l. s ∷ l) e
    step (to_page p) e = e
    step to_back e = e
    step to_nothing e = e

row_objects-objects :
    (v : Visibility) (l : List Object) → row_objects (map (object_row v) l) ≡ sequences l
row_objects-objects v [] = refl
row_objects-objects v (o ∷ l) = ap (λ r. o.sequence ∷ r) (row_objects-objects v l)

sequences-append : (a b : List Object) → sequences (a ++ b) ≡ sequences a ++ sequences b
sequences-append [] b = refl
sequences-append (o ∷ a) b = ap (λ r. o.sequence ∷ r) (sequences-append a b)

take-empty : {A : Type 0} (n : ℕ) → take {A = A} n [] ≡ []
take-empty zero = refl
take-empty (suc n) = refl

take-drop_append :
    {A : Type 0} (i k : ℕ) (l : List A) → take i l ++ take k (drop i l) ≡ take (i + k) l
take-drop_append zero k l = ap (λ n. take n l) (omega arith)
take-drop_append (suc i) k [] = take-empty k ∙ sym (take-empty (suc i + k))
take-drop_append (suc i) k (x ∷ l) =
    let whole : suc i + k ≡ suc (i + k) = omega arith in
    rw whole (ap (λ r. x ∷ r) (take-drop_append i k l))

take-all : {A : Type 0} (n : ℕ) (l : List A) → length l ≤ n → take n l ≡ l
take-all zero [] h = refl
take-all zero (x ∷ l) h = absurd (omega arith)
take-all (suc n) [] h = refl
take-all (suc n) (x ∷ l) h = ap (λ r. x ∷ r) (take-all n l (omega arith))

row_objects-row_if :
    (b : Bool) (label : Bytes) (on : Bool) (t : Target)
    → row_objects (record { label = label; on = on; target = t } ∷ []) ≡ []
    → row_objects (row_if b label on t) ≡ []
row_objects-row_if true label on t e = e
row_objects-row_if false label on t e = refl

-- The rows after the objects stand for none.
row_objects-after :
    (b : Bool) (label : Bytes) (on : Bool) (t : Target) (rest : List Row)
    → row_objects (record { label = label; on = on; target = t } ∷ []) ≡ []
    → row_objects rest ≡ []
    → row_objects (row_if b label on t ++ rest) ≡ []
row_objects-after b label on t rest e h =
    rw (row_objects-append (row_if b label on t) rest, row_objects-row_if b label on t e, h) refl

-- The pages next to a page
page_number-previous :
    (l : List Object) (r : ℕ)
    → not (page_number r l == 0) ≡ true
    → (page_number (page_number r l - 1) l ≡ page_number r l - 1)
      × ((suc (page_number r l - 1) ≡ page_number r l)
          ⊎ (page_number r l - 1 ≡ suc (page_number r l)))
unfolding page_number
page_number-previous [] r h = absurd (ground arith)
page_number-previous (o ∷ l) r h =
    let positive : 0 < min r ((length (o ∷ l) - 1) / per_page) = ground arith in
    (omega arith, inl (omega arith))

page_number-next :
    (l : List Object) (r : ℕ)
    → ltb (page_number r l * per_page + per_page) (length l) ≡ true
    → page_number (suc (page_number r l)) l ≡ suc (page_number r l)
unfolding page_number
page_number-next [] r h = absurd (ground arith)
page_number-next (o ∷ l) r h =
    let more : min r ((length (o ∷ l) - 1) / per_page) * per_page + per_page < length (o ∷ l) =
      ltb→lt _ _ h in
    omega arith

module _ (name : Bytes) (v : Visibility) (objects : List Object) where
  row_objects-page_rows :
      (page : ℕ)
      → row_objects (page_rows name v page objects) ≡ sequences (page_objects page objects)
  unfolding page_rows
  row_objects-page_rows page =
      row_objects-append (map (object_row v) (page_objects page objects)) _
      ∙ rw
          (
            row_objects-objects v (page_objects page objects),
            row_objects-after (is_nil objects) (codes "No available actions") false to_nothing _
                refl
                (row_objects-after (not (page == 0)) (codes "Previous page") true
                  (to_page (page - 1)) _ refl
                  (row_objects-after (ltb (page * per_page + per_page) (length objects))
                    (codes "Next page") true (to_page (suc page)) _ refl
                    (row_objects-row_if (not (is_nil name)) (codes "Back to categories") true
                      to_back refl))),
          )
          (append-nil (sequences (page_objects page objects)))

  first_pages-take :
      (n : ℕ) → first_pages name v objects n ≡ sequences (take (n * per_page) objects)
  first_pages-take zero = refl
  first_pages-take (suc n) =
      rw (first_pages-take n, row_objects-page_rows n)
        (sym (sequences-append (take (n * per_page) objects) (page_objects n objects))
          ∙ ap sequences (
              unfold page_objects in
              take-drop_append (n * per_page) per_page objects
              ∙ ap (λ k. take k objects) (omega arith)))

  -- The pages together show every object of the list once, in its order.
  pub first_pages-last_page :
      first_pages name v objects (suc (last_page objects)) ≡ sequences objects
  unfolding page_number
  first_pages-last_page =
      first_pages-take (suc (last_page objects))
      ∙ ap sequences (take-all (suc (last_page objects) * per_page) objects (enough objects))
    where
      enough : (l : List Object) → length l ≤ suc (last_page l) * per_page
      enough [] = omega arith
      enough (o ∷ rest) = ground arith

  -- A row that leads to a page leads to one that exists, before or after this one.
  abbrev pub Leads : ℕ → Target → Type 0
  Leads page (to_object s) = Unit
  Leads page (to_page t) = (page_number t objects ≡ t) × ((suc t ≡ page) ⊎ (t ≡ suc page))
  Leads page to_back = Unit
  Leads page to_nothing = Unit

  Leads-row_if :
      (page : ℕ) (b : Bool) (label : Bytes) (on : Bool) (t : Target)
      → (b ≡ true → Leads page t)
      → All (λ r. Leads page r.target) (row_if b label on t)
  Leads-row_if page true label on t h = (h refl, tt)
  Leads-row_if page false label on t h = tt

  Leads-objects :
      (page : ℕ) (l : List Object) → All (λ r. Leads page r.target) (map (object_row v) l)
  Leads-objects page [] = tt
  Leads-objects page (o ∷ l) = (tt, Leads-objects page l)

  -- Whatever page was asked for, its rows for the previous and the next page lead to pages that exist,
  -- next to it.
  pub page_rows-Leads :
      (requested : ℕ)
      → All
          (λ r. Leads (page_number requested objects) r.target)
          (page_rows name v (page_number requested objects) objects)
  unfolding page_rows
  page_rows-Leads requested =
      let page = page_number requested objects in
      All-append (λ (r : Row). Leads page r.target) (map (object_row v) (page_objects page objects))
        _ (Leads-objects page (page_objects page objects))
        (All-append (λ (r : Row). Leads page r.target)
          (row_if (is_nil objects) (codes "No available actions") false to_nothing) _
          (Leads-row_if page (is_nil objects) (codes "No available actions") false to_nothing
            (λ e. tt))
          (All-append (λ (r : Row). Leads page r.target)
            (row_if (not (page == 0)) (codes "Previous page") true (to_page (page - 1))) _
            (Leads-row_if page (not (page == 0)) (codes "Previous page") true (to_page (page - 1))
              (page_number-previous objects requested))
            (All-append (λ (r : Row). Leads page r.target)
              (row_if (ltb (page * per_page + per_page) (length objects)) (codes "Next page") true
                (to_page (suc page)))
              _
              (Leads-row_if page (ltb (page * per_page + per_page) (length objects))
                (codes "Next page") true (to_page (suc page))
                (λ e. (page_number-next objects requested e, inr refl)))
              (Leads-row_if page (not (is_nil name)) (codes "Back to categories") true to_back
                (λ e. tt)))))
