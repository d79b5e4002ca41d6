-- ===== src/Identity/Names.antt =====
-- src/identity.cpp: permission names as words between dots.
use source2root.Base.{
  ℕ, ◌≡◌, refl, inl, inr, ◌&&◌, ◌||◌, Bool, true, false, not, List, [], ◌∷◌, arith, if◌then◌else◌,
  ◌==◌, leb, length, all, Bool-cases,
}
use source2root.Base.Text.{Bytes}
use source2root.Identity.{is_identifier_byte, back, permission_bytes, valid_permission}

-- The reference: the words between the dots.
add_to_first : ℕ → List Bytes → List Bytes
add_to_first c [] = (c ∷ []) ∷ []
add_to_first c (w ∷ ws) = (c ∷ w) ∷ ws

pub words : Bytes → List Bytes
words [] = [] ∷ []
words (c ∷ r) = let rest = words r in if c == b'.' then [] ∷ rest else add_to_first c rest

abbrev pub is_word : Bytes → Bool
is_word [] = false
is_word (c ∷ r) = all is_identifier_byte (c ∷ r)

-- One pass with the state of the loop; it also rejects a dot at either end.
passes : Bool → Bytes → Bool
passes dot [] = not dot
passes dot (c ∷ r) =
    let rest = passes (c == b'.') r in
    (is_identifier_byte c || c == b'.') && not (c == b'.' && dot) && rest

passes_lem :
    (dot : Bool) (c : ℕ) (r : Bytes)
    → passes dot (c ∷ r) ≡ (permission_bytes dot (c ∷ r) && not (back c r == b'.'))
unfolding passes permission_bytes
passes_lem dot c [] = ground arith
passes_lem dot c (b ∷ r) = ground (arith, passes_lem (c == b'.') b r)

-- The first word may be empty, since a letter stands before it.
abbrev rest_words : List Bytes → Bool
rest_words [] = true
rest_words (w ∷ ws) = all is_identifier_byte w && all is_word ws

rest_words-add_to_first :
    (c : ℕ) (ws : List Bytes)
    → rest_words (add_to_first c ws) ≡ (is_identifier_byte c && rest_words ws)
unfolding add_to_first
rest_words-add_to_first c [] = ground arith
rest_words-add_to_first c (w ∷ ws) = ground arith

all-is_word-add_to_first :
    (c : ℕ) (ws : List Bytes)
    → all is_word (add_to_first c ws) ≡ (is_identifier_byte c && rest_words ws)
unfolding add_to_first
all-is_word-add_to_first c [] = ground arith
all-is_word-add_to_first c (w ∷ ws) = ground arith

dot_at_start : (b s : Bool) → ((b || true) && false && s) ≡ false
dot_at_start b s = ground arith

dot_inside : (b s : Bool) → ((b || true) && true && s) ≡ s
dot_inside b s = ground arith

one_letter : (b s : Bool) → ((b || false) && true && s) ≡ (b && s)
one_letter b s = ground arith

passes-words :
    (r : Bytes) → (passes true r ≡ all is_word (words r)) × (passes false r ≡ rest_words (words r))
unfolding passes words
passes-words [] = (refl, refl)
passes-words (c ∷ r) = elim (Bool-cases (c == b'.')) [
  | inl dot ↦
      rw (dot, (passes-words r).0)
        (
          dot_at_start (is_identifier_byte c) (all is_word (words r)),
          dot_inside (is_identifier_byte c) (all is_word (words r)),
        )
  | inr letter ↦
      rw
        (
          letter,
          rest_words-add_to_first c (words r),
          all-is_word-add_to_first c (words r),
          (passes-words r).1,
        )
        (
          one_letter (is_identifier_byte c) (rest_words (words r)),
          one_letter (is_identifier_byte c) (rest_words (words r)),
        )
]

-- A permission name that is not empty is accepted exactly when it has at most 96 bytes and is a row
-- of nonempty words of a-z, 0-9, '_' and '-' with single dots between them.
pub valid_permission-words :
    (c : ℕ) (r : Bytes)
    → valid_permission (c ∷ r) ≡ (leb (length (c ∷ r)) 96 && all is_word (words (c ∷ r)))
unfolding valid_permission permission_bytes
valid_permission-words c r = ground (arith, passes_lem true c r, (passes-words (c ∷ r)).0)
