-- ===== src/Menu/Markup.antt =====
-- src/menu.cpp, Menu::Escape: what a text may do to the page.
use source2root.Base.{ℕ, ◌≤◌, ◌≡◌, ◌≢◌, refl, sym, arith, [], ◌∷◌, ◌++◌, All, All-append}
use source2root.Base.Text.{Bytes}
use source2root.Menu.{escape_byte, escape}

-- A byte that ends no text of the page and no attribute
abbrev pub IsInert : ℕ → Type 0
IsInert c = (c ≢ b'<') × (c ≢ b'>') × (c ≢ b'"') × (c ≢ b'\'') × (32 ≤ c)

escape_byte-IsInert : (c : ℕ) → All IsInert (escape_byte c)
unfolding escape_byte
escape_byte-IsInert c = ground arith

-- No text brings an angle bracket, a quote or a byte below 32 into the page.
pub escape-IsInert : (text : Bytes) → All IsInert (escape text)
unfolding escape
escape-IsInert [] = tt
escape-IsInert (c ∷ r) =
    All-append IsInert (escape_byte c) (escape r) (escape_byte-IsInert c) (escape-IsInert r)

escape_byte-prefix :
    (c d : ℕ) (s t : Bytes)
    → 32 ≤ c
    → 32 ≤ d
    → escape_byte c ++ s ≡ escape_byte d ++ t
    → (c ≡ d) × (s ≡ t)
unfolding escape_byte
escape_byte-prefix c d s t h k e = ground arith

escape_byte-nonempty : (c : ℕ) (s : Bytes) → 32 ≤ c → escape_byte c ++ s ≢ []
unfolding escape_byte
escape_byte-nonempty c s h e = ground arith

-- Two texts without bytes below 32 that are shown alike are the same.
pub escape_injective :
    (s t : Bytes) → All (λ c. 32 ≤ c) s → All (λ c. 32 ≤ c) t → escape s ≡ escape t → s ≡ t
unfolding escape
escape_injective [] [] h k e = refl
escape_injective [] (d ∷ t) h k e = absurd (escape_byte-nonempty d (escape t) k.0 (sym e))
escape_injective (c ∷ s) [] h k e = absurd (escape_byte-nonempty c (escape s) h.0 e)
escape_injective (c ∷ s) (d ∷ t) h k e =
    let (same, rest) = escape_byte-prefix c d (escape s) (escape t) h.0 k.0 e in
    let tail : s ≡ t = escape_injective s t h.1 k.1 rest in cc
