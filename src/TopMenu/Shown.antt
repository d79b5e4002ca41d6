-- ===== src/TopMenu/Shown.antt =====
-- src/extensions/topmenus/catalog.cpp, Menu::Build: what a page shows to whom.
use source2root.Base.{
  ℕ, ◌≡◌, ◌⊎◌, inl, inr, refl, sym, ap, ◌∙◌, ◌&&◌, Bool, true, false, not, none, some, List, [],
  ◌∷◌, ok, if◌then◌else◌, ◌==◌, Bool-cases, if-either, &&-true, Ensures, Ensures-ok, >>=-Ensures,
  throw_if-Ensures,
}
use source2root.Base.Text.{Bytes, bytes_eq, bytes_eq_iff}
use source2root.Base.Table.{lookup, has, put, bytes_key}
use source2root.Base.Table.Laws.{lookup-put, equal-eq}
use source2root.TopMenu.{MenuError, Object, Menu, is_category, living}
use source2root.TopMenu.Active.{active}
use source2root.TopMenu.Objects.{Among, newest, newest-Among}
use source2root.TopMenu.Sorted.{listed}
use source2root.TopMenu.Build.{
  Access, hidden, is_hidden, Visibility, emplace, Callback, asked, asked_item, is_allowed,
  ask_categories, ask_items,
}

-- Two listed objects of one name are the same.
pub active_unique :
    (running : ℕ → Bool) (m : Menu) (o p : Object)
    → Among o (active running m).1
    → Among p (active running m).1
    → o.key ≡ p.key
    → o ≡ p
active_unique running m o p a b same =
    let (k, first) = listed running m o a in
    let (j, second) = listed running m p b in
    let names : k ≡ j = sym (key_of o k first) ∙ same ∙ key_of p j second in
    cc (sym first ∙ ap (λ n. newest running n (living m.objects) none) names ∙ second)
  where
    key_of :
        (o : Object) (k : Bytes) → newest running k (living m.objects) none ≡ some o → o.key ≡ k
    key_of o k e = elim (newest-Among running k (living m.objects) none o e) [
      | inl q ↦ absurd (cc q)
      | inr (among, c) ↦
          (bytes_eq_iff o.key k).0 (&&-true (o.live && running o.owner) (bytes_eq o.key k) c).1
    ]

-- Each entry that is not hidden is the answer for a listed object of that name.
module _ (answer : Object → Access) (objects : List Object) where
  abbrev pub Answered : Visibility → Type 0
  Answered v =
      (key : Bytes) (a : Access)
      → lookup key v ≡ some a
      → is_hidden a ≡ false
      → (o : Object) × Among o objects × (o.key ≡ key) × (answer o ≡ a)

  Answered-emplace :
      (o : Object) (a : Access) (v : Visibility)
      → Answered v
      → (is_hidden a ≡ false → Among o objects × (answer o ≡ a))
      → Answered (emplace o.key a v)
  Answered-emplace o a v h new =
      if-either Answered (has o.key v) (λ e. h)
        (λ e. λ key b found shows.
          go key b shows (lookup-put key o.key a v) found (Bool-cases (bytes_key.equal o.key key)))
    where
      go :
          (key : Bytes) (b : Access)
          → is_hidden b ≡ false
          → lookup key (put o.key a v)
            ≡ (if bytes_key.equal o.key key then some a else lookup key v)
          → lookup key (put o.key a v) ≡ some b
          → (bytes_key.equal o.key key ≡ true) ⊎ (bytes_key.equal o.key key ≡ false)
          → (o : Object) × Among o objects × (o.key ≡ key) × (answer o ≡ b)
      go key b shows l found (inl q) =
          let l' = rw q at l in
          let same : a ≡ b = cc (sym l' ∙ found) in
          let (among, says) = new (ap is_hidden same ∙ shows) in
          (o, among, equal-eq o.key key q, says ∙ same)
      go key b shows l found (inr q) = let l' = rw q at l in h key b (sym l' ∙ found) shows

  module _ (access : Callback) (revision : ℕ)
      (pure : (o : Object) (m : Menu) → access o m ≡ (answer o, m)) where
    Answered-asked :
        (o : Object) (m : Menu) (v : Visibility)
        → Among o objects
        → Answered v
        → Ensures (λ r. Answered r.1) (asked access revision o m v)
    Answered-asked o m v among h =
        throw_if-Ensures (λ (r : Menu × Visibility). Answered r.1)
          (not ((access o m).1.revision == revision)) MenuError.changed_menu
          (ok ((access o m).1, emplace o.key (access o m).0 v))
          λ e.
            Answered-emplace o (access o m).0 v h
              (λ shows. (among, sym (ap (λ (p : Access × Menu). p.0) (pure o m))))

    abbrev pub Within : List Object → Type 0
    Within l = (o : Object) → Among o l → Among o objects

    pub Answered-ask_categories :
        (l : List Object) (m : Menu) (v : Visibility)
        → Within l
        → Answered v
        → Ensures (λ r. Answered r.1) (ask_categories access revision l m v)
    unfolding ask_categories
    Answered-ask_categories [] m v w h = h
    Answered-ask_categories (o ∷ l) m v w h =
        if-either (Ensures (λ (r : Menu × Visibility). Answered r.1)) (is_category o.kind)
          (λ e.
            >>=-Ensures (λ (r : Menu × Visibility). Answered r.1) (asked access revision o m v)
              (λ r. ask_categories access revision l r.0 r.1)
              λ r q.
                Answered-ask_categories l r.0 r.1 (λ p a. w p (inr a))
                  (Ensures-ok (λ (r : Menu × Visibility). Answered r.1)
                    (asked access revision o m v) (Answered-asked o m v (w o (inl refl)) h) q))
          (λ e. Answered-ask_categories l m v (λ p a. w p (inr a)) h)

    Answered-asked_item :
        (o : Object) (m : Menu) (v : Visibility)
        → Among o objects
        → Answered v
        → Ensures (λ r. Answered r.1) (asked_item access revision o m v)
    Answered-asked_item o m v among h =
        if-either (Ensures (λ (r : Menu × Visibility). Answered r.1))
          (is_allowed access revision o v) (λ e. Answered-asked o m v among h)
          (λ e.
            throw_if-Ensures (λ (r : Menu × Visibility). Answered r.1)
              (not (m.revision == revision)) MenuError.changed_menu (ok (m, emplace o.key hidden v))
              λ q. Answered-emplace o hidden v h (λ shows. absurd (cc shows)))

    pub Answered-ask_items :
        (l : List Object) (m : Menu) (v : Visibility)
        → Within l
        → Answered v
        → Ensures (λ r. Answered r.1) (ask_items access revision l m v)
    unfolding ask_items
    Answered-ask_items [] m v w h = h
    Answered-ask_items (o ∷ l) m v w h =
        if-either (Ensures (λ (r : Menu × Visibility). Answered r.1)) (is_category o.kind)
          (λ e. Answered-ask_items l m v (λ p a. w p (inr a)) h)
          (λ e.
            >>=-Ensures (λ (r : Menu × Visibility). Answered r.1) (asked_item access revision o m v)
              (λ r. ask_items access revision l r.0 r.1)
              λ r q.
                Answered-ask_items l r.0 r.1 (λ p a. w p (inr a))
                  (Ensures-ok (λ (r : Menu × Visibility). Answered r.1)
                    (asked_item access revision o m v)
                    (Answered-asked_item o m v (w o (inl refl)) h) q))
