-- ===== src/KeyValues/Print.antt =====
-- src/keyvalues.cpp: a printed tree is read back.
use mathlib.Core.List.{append_assoc, append-nil}
use source2root.Base.{
  ℕ, zero, suc, ◌+◌, ◌*◌, ◌≤◌, ◌<◌, ◌≡◌, refl, ap, ◌∙◌, true, false, [], ◌∷◌, ◌++◌, arith, ok,
  length, All, is_nil, length-append, le→ltb-false,
}
use source2root.Base.Text.{Bytes, codes, starts_with}
use source2root.KeyValues.{
  KeyValue, scalar, object, Entries, nil, cons, skip, skip_rounds, entry, at_rest, Parsed,
  parse_rounds, read_key_values, without_mark,
}
use source2root.KeyValues.Space.{skip-stops}
use source2root.KeyValues.Token.{quote, is_text, token-quote}

-- The reference: keys and values between quotes, children between braces.
unfoldable mutual
  pub print : Entries → Bytes
  print nil = []
  print (cons e es) = print_entry e ++ print es

  pub print_entry : KeyValue → Bytes
  print_entry (scalar n v) = quote n ++ quote v
  print_entry (object n es) = quote n ++ b'{' ∷ (print es ++ b'}' ∷ [])

-- The entries at every depth.
unfoldable mutual
  pub size : Entries → ℕ
  size nil = 0
  size (cons e es) = size_entry e + size es

  pub size_entry : KeyValue → ℕ
  size_entry (scalar n v) = 1
  size_entry (object n es) = suc (size es)

abbrev pub IsToken : Bytes → Type 0
IsToken w = (length w ≤ 4096) × All (λ c. is_text c ≡ true) w

-- What the format can hold at depth `d`: short printable tokens, keys that are not empty, and
-- objects to depth 16.
unfoldable mutual
  pub Holds : ℕ → Entries → Type 0
  Holds d nil = Unit
  Holds d (cons e es) = HoldsEntry d e × Holds d es

  pub HoldsEntry : ℕ → KeyValue → Type 0
  HoldsEntry d (scalar n v) = (is_nil n ≡ false) × IsToken n × IsToken v
  HoldsEntry d (object n es) = (is_nil n ≡ false) × IsToken n × (d < 16) × Holds (d + 1) es

skip-quote : (w r : Bytes) → skip (quote w ++ r) ≡ ok (quote w ++ r)
unfolding quote
skip-quote w r = skip-stops b'"' _ refl refl

is_nil-quote : (w r : Bytes) → is_nil (quote w ++ r) ≡ false
unfolding quote
is_nil-quote w r = refl

brace-quote : (w r : Bytes) → starts_with (codes "{") (quote w ++ r) ≡ false
unfolding quote starts_with
brace-quote w r = refl

at_rest-quote :
    (depth count : ℕ) (more : Parsed) (w r : Bytes) → at_rest depth count more (quote w ++ r) ≡ more
unfolding quote at_rest
at_rest-quote depth count more w r = refl

skip-nil : skip [] ≡ ok []
unfolding skip skip_rounds
skip-nil = refl

module _ (deeper same : ℕ → Bytes → Parsed) (n : Bytes) (count : ℕ) (k : is_nil n ≡ false)
    (t : IsToken n) (room : count < 65536) where
  entry-scalar :
      (v r : Bytes) (es : Entries) (total : ℕ) (last : Bytes)
      → IsToken v
      → same (count + 1) r ≡ ok (es, total, last)
      → entry deeper same count (quote n ++ (quote v ++ r)) ≡ ok (cons (scalar n v) es, total, last)
  unfolding entry
  entry-scalar v r es total last tv later =
      rw
        (
          token-quote n (quote v ++ r) t.0 t.1,
          k,
          le→ltb-false 65536 (count + 1) (omega arith),
          skip-quote v r,
          is_nil-quote v r,
          brace-quote v r,
          token-quote v r tv.0 tv.1,
          later,
        )
        refl

  entry-object :
      (children : Entries) (r : Bytes) (es : Entries) (inner total : ℕ) (after last : Bytes)
      → deeper (count + 1) r ≡ ok (children, inner, after)
      → same inner after ≡ ok (es, total, last)
      → entry deeper same count (quote n ++ b'{' ∷ r)
        ≡ ok (cons (object n children) es, total, last)
  unfolding entry starts_with
  entry-object children r es inner total after last down later =
      rw
        (
          token-quote n (b'{' ∷ r) t.0 t.1,
          k,
          le→ltb-false 65536 (count + 1) (omega arith),
          skip-stops b'{' r refl refl,
          down,
          later,
        )
        refl

-- What stands behind the entries: nothing at the top, a closing brace below.
abbrev Ending : ℕ → Bytes → Bytes → Type 0
Ending zero tail after = (tail ≡ []) × (after ≡ [])
Ending (suc d) tail after = tail ≡ b'}' ∷ after

parse_rounds-end :
    (f depth count : ℕ) (tail after : Bytes)
    → depth ≤ 16
    → Ending depth tail after
    → parse_rounds (suc f) depth count tail ≡ ok (nil, count, after)
unfolding parse_rounds at_rest
parse_rounds-end f zero count tail after h (e, k) = rw (e, k, skip-nil) refl
parse_rounds-end f (suc d) count tail after h e =
    rw (e, le→ltb-false 16 (suc d) h, skip-stops b'}' after refl refl) (ground arith)

parse_rounds-entry :
    (f depth count : ℕ) (w r : Bytes) (done : Entries × ℕ × Bytes)
    → depth ≤ 16
    → entry (parse_rounds f (depth + 1)) (parse_rounds f depth) count (quote w ++ r) ≡ ok done
    → parse_rounds (suc f) depth count (quote w ++ r) ≡ ok done
unfolding parse_rounds
parse_rounds-entry f depth count w r done h e =
    rw (le→ltb-false 16 depth h, skip-quote w r, at_rest-quote) e

parse_rounds-print :
    (es : Entries) (f depth count : ℕ) (tail after : Bytes)
    → size es < f
    → Holds depth es
    → depth ≤ 16
    → count + size es ≤ 65536
    → Ending depth tail after
    → parse_rounds f depth count (print es ++ tail) ≡ ok (es, count + size es, after)
unfolding size Holds print
parse_rounds-print es zero depth count tail after enough holds deep room end = absurd (omega arith)
parse_rounds-print nil (suc f) depth count tail after enough holds deep room end =
    parse_rounds-end f depth count tail after deep end ∙ ap (λ c. ok (nil, c, after)) (omega arith)
parse_rounds-print (cons (scalar n v) es) (suc f) depth count tail after enough holds deep room
      end =
    let later =
      parse_rounds-print es f depth (count + 1) tail after (omega arith) holds.1 deep (omega arith)
        end in
    let parts : (quote n ++ quote v) ++ print es ++ tail
        ≡ quote n ++ (quote v ++ (print es ++ tail)) =
      simp append_assoc in
    rw parts (
      parse_rounds-entry f depth count n _ _ deep (
        entry-scalar (parse_rounds f (depth + 1)) (parse_rounds f depth) n count holds.0.0 holds.0.1
          (omega arith) v _ es _ after holds.0.2 later)
      ∙ ap (λ c. ok (cons (scalar n v) es, c, after)) (omega arith))
parse_rounds-print (cons (object n children) es) (suc f) depth count tail after enough holds deep
      room end =
    let later =
      parse_rounds-print es f depth (count + 1 + size children) tail after (omega arith) holds.1
        deep (omega arith) end in
    let next : depth + 1 ≡ suc depth = omega arith in
    let inside =
      parse_rounds-print children f (depth + 1) (count + 1) (b'}' ∷ (print es ++ tail))
        (print es ++ tail) (omega arith) (holds.0.3) (omega arith) (omega arith) (rw next refl) in
    let parts : (quote n ++ b'{' ∷ (print children ++ b'}' ∷ [])) ++ print es ++ tail
        ≡ quote n ++ b'{' ∷ (print children ++ b'}' ∷ (print es ++ tail)) =
      simp append_assoc in
    rw parts (
      parse_rounds-entry f depth count n _ _ deep (
        entry-object (parse_rounds f (depth + 1)) (parse_rounds f depth) n count holds.0.0 holds.0.1
          (omega arith) children _ es (count + 1 + size children) _ _ after inside later)
      ∙ ap (λ c. ok (cons (object n children) es, c, after)) (omega arith))

length-print : (es : Entries) → size es ≤ length (print es)
unfolding size print quote
length-print nil = omega arith
length-print (cons (scalar n v) es) = omega (
  arith,
  length-append {0} (quote n ++ quote v) (print es),
  length-append {0} (quote n) (quote v),
  length-print es,
)
length-print (cons (object n children) es) = omega (
  arith,
  length-append {0} (quote n ++ b'{' ∷ (print children ++ b'}' ∷ [])) (print es),
  length-append {0} (quote n) (b'{' ∷ (print children ++ b'}' ∷ [])),
  length-append {0} (print children) (b'}' ∷ []),
  length-print es,
  length-print children,
)

unmarked : (es : Entries) → without_mark (print es) ≡ print es
unfolding print starts_with quote
unmarked nil = refl
unmarked (cons (scalar n v) es) = refl
unmarked (cons (object n children) es) = refl

-- A tree whose keys are not empty, whose tokens are printable and have at most 4096 bytes, and that
-- has at most 65536 entries and 16 levels of objects, is read back from its printed form, if that
-- has at most 1 MiB.
pub read_key_values-print :
    (es : Entries)
    → Holds 0 es
    → size es ≤ 65536
    → length (print es) ≤ 1024 * 1024
    → read_key_values (print es) ≡ ok es
unfolding read_key_values
read_key_values-print es holds room small =
    let whole : parse_rounds (suc (length (print es))) 0 0 (print es) ≡ ok (es, 0 + size es, []) =
      rw append-nil at (
        parse_rounds-print es (suc (length (print es))) 0 0 [] [] (omega (arith, length-print es))
          holds (omega arith) (omega arith) (refl, refl)) in
    rw (le→ltb-false (1024 * 1024) (length (print es)) small, unmarked es, whole) refl
