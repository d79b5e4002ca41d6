-- ===== src/Player.antt =====
-- src/identity.h: the copy of a player that the host hands out.
use source2root.Base.Table.{Key}
use source2root.Base.{ℕ, ◌≡◌, ◌↔◌, ap, refl, arith, ◌&&◌, Bool, true, false, not, ◌==◌}
use source2root.Base.Text.{Bytes, ℤ, pos, negsuc}

-- struct Player
pub record Player : Type 0 where
  pub slot : ℤ
  pub connection : ℕ
  pub steam_id : ℕ
  pub authenticated : Bool
  pub bot : Bool
  pub name : Bytes
  pub user_id : ℤ
  pub team : ℤ
  pub alive : Bool

abbrev pub int_eq : ℤ → ℤ → Bool
int_eq (pos a) (pos b) = a == b
int_eq (pos a) (negsuc b) = false
int_eq (negsuc a) (pos b) = false
int_eq (negsuc a) (negsuc b) = a == b

pub int_eq-eq : (a b : ℤ) → int_eq a b ≡ true → a ≡ b
int_eq-eq (pos a) (pos b) h = ap pos (ground arith)
int_eq-eq (pos a) (negsuc b) h = cc
int_eq-eq (negsuc a) (pos b) h = cc
int_eq-eq (negsuc a) (negsuc b) h = ap negsuc (ground arith)

pub int_eq_refl : (a : ℤ) → int_eq a a ≡ true
int_eq_refl (pos a) = ground arith
int_eq_refl (negsuc a) = ground arith

instance abbrev pub int_key : Key ℤ
int_key = record { equal = int_eq; equal_iff = λ a b. (int_eq-eq a b, λ e. rw e (int_eq_refl b)) }

pub slots_eq : (a b : ℤ × ℤ) → ((int_eq a.0 b.0 && int_eq a.1 b.1) ≡ true) ↔ (a ≡ b)
slots_eq a b = (
  λ h.
      let one : int_eq a.0 b.0 ≡ true = ground arith in
      let two : int_eq a.1 b.1 ≡ true = ground arith in
      let first = int_eq-eq a.0 b.0 one in let second = int_eq-eq a.1 b.1 two in cc,
  λ e. rw (e, int_eq_refl b.0, int_eq_refl b.1) refl,
)

-- std::pair<int, int> as a key
instance abbrev pub slots_key : Key (ℤ × ℤ)
slots_key = record { equal = λ a b. int_eq a.0 b.0 && int_eq a.1 b.1; equal_iff = slots_eq }

-- slot >= 0
abbrev pub has_slot : Player → Bool
has_slot p = elim p.slot [ pos n ↦ true | negsuc n ↦ false ]

-- Player::SameConnection
unfoldable pub same_connection : Player → Player → Bool
same_connection a b =
    int_eq a.slot b.slot && not (a.connection == 0) && a.connection == b.connection

int_eq_symm : (a b : ℤ) → int_eq a b ≡ int_eq b a
int_eq_symm (pos a) (pos b) = ground arith
int_eq_symm (pos a) (negsuc b) = refl
int_eq_symm (negsuc a) (pos b) = refl
int_eq_symm (negsuc a) (negsuc b) = ground arith

pub same_connection_symm : (a b : Player) → same_connection a b ≡ true → same_connection b a ≡ true
unfolding same_connection
same_connection_symm a b h = ground (arith, int_eq_symm a.slot b.slot)
