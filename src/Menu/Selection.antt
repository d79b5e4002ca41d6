-- ===== src/Menu/Selection.antt =====
-- src/menu.cpp, Menu::Input: where the selection goes.
use source2root.Base.{
  ℕ, ◌+◌, ◌-◌, ◌/◌, ◌%◌, ◌<◌, ◌≡◌, ◌⊎◌, ap, ◌∙◌, inl, inr, arith, Bool, ==_iff, ◌==◌, length, min,
  Bool-cases, ==-false_of_ne,
}
use native.Mathlib.Nat.{mod-eq_of_lt, mod_self}
use source2root.Menu.{Menu, MenuInput, MenuAction, item_enabled, move, input}

move-lt : (n : ℕ) (e : Bool) (i : MenuInput) (at : ℕ) → at < n → (move n e i at).0 < n
unfolding move
move-lt n e MenuInput.select at h = h
move-lt n e MenuInput.back at h = ground arith
move-lt n e MenuInput.up at h = ground arith
move-lt n e MenuInput.down at h = ground arith

mod_of_eq : (a n : ℕ) → a ≡ n → 0 < n → a % n ≡ 0
mod_of_eq a n e h = rw e (mod_self n)

move-up-down :
    (n at : ℕ) (e e' : Bool)
    → at < n
    → (move n e MenuInput.up (move n e' MenuInput.down at).0).0 ≡ at
unfolding move
move-up-down n at e e' h = elim (Bool-cases (at + 1 == n)) [
  | inl last ↦
      let round : (at + 1) % n ≡ 0 =
        mod_of_eq (at + 1) n (omega (arith, (==_iff (at + 1) n).0 last)) (omega arith) in
      rw round (ground arith)
  | inr more ↦
      let stays : (at + 1) % n ≡ at + 1 = mod-eq_of_lt (ground arith) in rw stays (ground arith)
]

move-down-up :
    (n at : ℕ) (e e' : Bool)
    → at < n
    → (move n e MenuInput.down (move n e' MenuInput.up at).0).0 ≡ at
unfolding move
move-down-up n at e e' h = elim (Bool-cases (at == 0)) [
  | inl first ↦
      let round : (n - 1 + 1) % n ≡ 0 = mod_of_eq (n - 1 + 1) n (omega arith) (omega arith) in
      rw (first, round) (ground arith)
  | inr more ↦
      let stays : (at - 1 + 1) % n ≡ at = ap (λ k. k % n) (ground arith) ∙ mod-eq_of_lt h in
      rw (more, stays) (ground arith)
]

input-eq :
    (i : MenuInput) (m : Menu)
    → m.selected < length m.items
    → input i m ≡ (
      record m {
        selected = (move (length m.items) (item_enabled m.items m.selected) i m.selected).0;
      },
      (move (length m.items) (item_enabled m.items m.selected) i m.selected).1,
    )
unfolding input
input-eq i m h =
    let inside : min m.selected (length m.items - 1) ≡ m.selected = omega arith in
    rw (==-false_of_ne (length m.items) 0 (omega arith), inside)

-- Where there are items, the selection is one of them after any input, wherever it was before.
pub input_selects :
    (i : MenuInput) (m : Menu)
    → 0 < length m.items
    → (input i m).0.selected < length (input i m).0.items
unfolding input
input_selects i m h =
    rw (==-false_of_ne (length m.items) 0 (omega arith))
      (move-lt (length m.items) _ i (min m.selected (length m.items - 1)) (omega arith))

-- Where the selection is one of the items, up takes back down, and down takes back up, around both
-- ends of the list.
pub input-up-down :
    (m : Menu)
    → m.selected < length m.items
    → ((input MenuInput.up (input MenuInput.down m).0).0 ≡ m)
      × ((input MenuInput.down (input MenuInput.up m).0).0 ≡ m)
input-up-down m h = (
  rw
      (
        input-eq MenuInput.down m h,
        input-eq MenuInput.up (record m { selected = down_to }) down_inside,
      )
      (ap (λ k. record m { selected = k }) (move-up-down (length m.items) m.selected _ _ h)),
  rw (input-eq MenuInput.up m h, input-eq MenuInput.down (record m { selected = up_to }) up_inside)
      (ap (λ k. record m { selected = k }) (move-down-up (length m.items) m.selected _ _ h)),
)
  where
    enabled : Bool
    enabled = item_enabled m.items m.selected

    down_to : ℕ
    down_to = (move (length m.items) enabled MenuInput.down m.selected).0

    up_to : ℕ
    up_to = (move (length m.items) enabled MenuInput.up m.selected).0

    down_inside : down_to < length m.items
    down_inside = move-lt (length m.items) enabled MenuInput.down m.selected h

    up_inside : up_to < length m.items
    up_inside = move-lt (length m.items) enabled MenuInput.up m.selected h

-- Where the selection is one of the items, Back goes to the first item of the page before, and
-- cancels, changing nothing, on the first page.
pub input-back :
    (m : Menu)
    → m.selected < length m.items
    → ((m.selected < 3) × ((input MenuInput.back m) ≡ (m, MenuAction.cancelled)))
      ⊎ (((input MenuInput.back m).1 ≡ MenuAction.changed)
          × ((input MenuInput.back m).0.selected % 3 ≡ 0)
          × ((input MenuInput.back m).0.selected / 3 + 1 ≡ m.selected / 3))
unfolding move
input-back m h = rw (input-eq MenuInput.back m h) (ground arith)
