-- ===== src/KeyValues/Rounds.antt =====
-- src/keyvalues.cpp: one round for each byte is enough, so the parser always answers.
use source2root.Base.{
  ℕ, zero, suc, ◌+◌, ◌*◌, ◌≤◌, ◌<◌, ◌≡◌, inl, inr, Bool, true, false, [], ◌∷◌, arith, ok, err,
  length, drop, ◌==◌, if-either, >>=-either, is_nil, ◌⊎◌, ◌>>=◌, Bool-cases, ltb, throw_if,
  if◌then◌else◌, Result-cases,
}
use source2root.Base.Text.{Bytes, codes, starts_with}
use source2root.KeyValues.{
  Problem, Failure, Parsed, token, skip, nested_entry, plain_entry, entry, at_rest, parse_rounds,
  read_key_values, FileError, at_line, too_large, without_mark, line,
}
use source2root.KeyValues.Space.{IsReported, length-drop-le, skip-Shorter}
use source2root.KeyValues.Token.{token-Taken}

-- The entries leave no more than was given, and no failure is a lack of rounds.
abbrev Enough : ℕ → Parsed → Type 0
Enough n (ok done) = length done.2 ≤ n
Enough n (err f) = IsReported f.0

-- A call of Parse on a text shorter than the rounds left.
abbrev Call : ℕ → (ℕ → Bytes → Parsed) → Type 0
Call f call = (count : ℕ) (r : Bytes) → length r < f → Enough (length r) (call count r)

Enough-mono : (m n : ℕ) (p : Parsed) → m ≤ n → Enough m p → Enough n p
Enough-mono m n (ok done) h k = omega arith
Enough-mono m n (err f) h k = k

token-shrinks : (r t rest : Bytes) → token r ≡ ok (t, rest) → length rest < length r
unfolding token
token-shrinks [] t rest e = cc
token-shrinks (c ∷ r) t rest e =
    let less : length rest ≤ length r = rw e at (token-Taken (length r) (c ∷ r) (omega arith)) in
    omega arith

token-IsReported : (r : Bytes) (f : Failure) → token r ≡ err f → IsReported f.0
token-IsReported r f e = rw e at (token-Taken (length r) r (omega arith))

skip-shrinks : (r rest : Bytes) → skip r ≡ ok rest → length rest ≤ length r
skip-shrinks r rest e = rw e at (skip-Shorter r)

skip-IsReported : (r : Bytes) (f : Failure) → skip r ≡ err f → IsReported f.0
skip-IsReported r f e = rw e at (skip-Shorter r)

plain_entry-Enough :
    (f : ℕ) (same : ℕ → Bytes → Parsed) (key : Bytes) (count : ℕ) (r : Bytes)
    → Call f same
    → length r < f
    → Enough (length r) (plain_entry same key count r)
unfolding plain_entry
plain_entry-Enough f same key count r calls h =
    >>=-either (Enough (length r)) (token r) (λ x e. token-IsReported r x e)
      λ (value, after) e.
        let less = token-shrinks r value after e in
        let others = calls count after (omega arith) in
        >>=-either (Enough (length r)) (same count after) (λ x q. rw q at others)
          λ (es, total, last) q.
            let rest : length last ≤ length after = rw q at others in omega arith

nested_entry-Enough :
    (f : ℕ) (deeper same : ℕ → Bytes → Parsed) (key : Bytes) (count : ℕ) (r : Bytes)
    → Call f deeper
    → Call f same
    → length r < f
    → Enough (length r) (nested_entry deeper same key count r)
unfolding nested_entry
nested_entry-Enough f deeper same key count r down calls h =
    let inside = down count r h in
    >>=-either (Enough (length r)) (deeper count r) (λ x q. rw q at inside)
      λ (children, inner, after) q.
        let less : length after ≤ length r = rw q at inside in
        let others = calls inner after (omega arith) in
        >>=-either (Enough (length r)) (same inner after) (λ x p. rw p at others)
          λ (es, total, last) p.
            let rest : length last ≤ length after = rw p at others in omega arith

guard-Enough :
    (n : ℕ) (b : Bool) (f : Failure) (more : Parsed)
    → IsReported f.0
    → Enough n more
    → Enough n (throw_if b f >>= λ _. more)
guard-Enough n true f more p h = p
guard-Enough n false f more p h = h

value-Enough :
    (f n : ℕ) (deeper same : ℕ → Bytes → Parsed) (key : Bytes) (count : ℕ) (r : Bytes)
    → Call f deeper
    → Call f same
    → length r < f
    → length r ≤ n
    → Enough n (
        if starts_with (codes "{") r
        then nested_entry deeper same key count (drop 1 r)
        else plain_entry same key count r)
value-Enough f n deeper same key count [] down calls h k =
    if-either (Enough n) (starts_with (codes "{") [])
      (λ _.
        Enough-mono 0 n _ (omega arith)
          (nested_entry-Enough f deeper same key count [] down calls h))
      (λ _. Enough-mono 0 n _ (omega arith) (plain_entry-Enough f same key count [] calls h))
value-Enough f n deeper same key count (c ∷ r) down calls h k =
    if-either (Enough n) (starts_with (codes "{") (c ∷ r))
      (λ _.
        Enough-mono (length r) n _ (omega arith)
          (nested_entry-Enough f deeper same key count r down calls (omega arith)))
      (λ _.
        Enough-mono (suc (length r)) n _ (omega arith)
          (plain_entry-Enough f same key count (c ∷ r) calls h))

entry-Enough :
    (f : ℕ) (deeper same : ℕ → Bytes → Parsed) (count : ℕ) (r : Bytes)
    → Call f deeper
    → Call f same
    → length r ≤ f
    → Enough (length r) (entry deeper same count r)
unfolding entry
entry-Enough f deeper same count r down calls h =
    >>=-either (Enough (length r)) (token r) (λ x e. token-IsReported r x e)
      λ (key, after_key) e.
        let less = token-shrinks r key after_key e in
        guard-Enough (length r) (is_nil key) _ _ tt (
          guard-Enough (length r) (ltb 65536 (count + 1)) _ _ tt (
            >>=-either (Enough (length r)) (skip after_key) (λ x q. skip-IsReported after_key x q)
              λ at_value q.
                let shrunk = skip-shrinks after_key at_value q in
                guard-Enough (length r) (is_nil at_value) _ _ tt (
                  value-Enough f (length r) deeper same key (count + 1) at_value down calls
                    (omega arith) (omega arith))))

at_rest-Enough :
    (n depth count : ℕ) (more : Parsed) (r : Bytes)
    → length r ≤ n
    → Enough n more
    → Enough n (at_rest depth count more r)
unfolding at_rest
at_rest-Enough n depth count more [] h k =
    if-either (Enough n) (depth == 0) (λ _. omega arith) (λ _. tt)
at_rest-Enough n depth count more (c ∷ r) h k =
    if-either (Enough n) (c == b'}')
      (λ _. if-either (Enough n) (depth == 0) (λ _. tt) (λ _. omega arith)) (λ _. k)

parse_rounds-Enough : (f depth : ℕ) → Call f (parse_rounds f depth)
unfolding parse_rounds
parse_rounds-Enough zero depth count r h = absurd (omega arith)
parse_rounds-Enough (suc f) depth count r h = guard-Enough (length r) (ltb 16 depth) _ _ tt (
    >>=-either (Enough (length r)) (skip r) (λ x q. skip-IsReported r x q)
      λ rest q.
        let less = skip-shrinks r rest q in
        at_rest-Enough (length r) depth count _ rest less (
          Enough-mono (length rest) (length r) _ less (
            entry-Enough f _ _ count rest (parse_rounds-Enough f (depth + 1))
              (parse_rounds-Enough f depth) (omega arith))))

-- The parser always comes to an end: every failure of a file is one that the source reports.
pub read_key_values_total :
    (source : Bytes) (e : FileError)
    → read_key_values source ≡ err e
    → (e ≡ too_large)
      ⊎ ((p : Problem) × (at : Bytes) × (e ≡ at_line (line source at) p) × IsReported p)
unfolding read_key_values
read_key_values_total source e h =
    elim (Result-cases (parse_rounds (suc (length source)) 0 0 (without_mark source))) [
      | inl (done, q) ↦ inl (ground arith)
      | inr ((p, at), q) ↦
          let reported : IsReported p =
            rw q at (parse_rounds-Enough (suc (length source)) 0 0 (without_mark source) shorter) in
          elim (Bool-cases (ltb (1024 * 1024) (length source))) [
            | inl large ↦ inl (ground arith)
            | inr small ↦ inr (p, at, ground arith, reported)
          ]
    ]
  where
    shorter : length (without_mark source) < suc (length source)
    shorter =
        if-either (λ (t : Bytes). length t < suc (length source))
          (starts_with (0xef ∷ 0xbb ∷ 0xbf ∷ []) source)
          (λ _. omega (arith, length-drop-le 3 source)) (λ _. omega arith)
