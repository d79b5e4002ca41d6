-- ===== src/Arguments/Bounds.antt =====
-- src/text.cpp, ParseArguments: it always answers, and its arguments fit.
use source2root.Base.{
  ℕ, zero, suc, ◌+◌, ◌≤◌, ◌≡◌, ◌≢◌, refl, arith, ◌&&◌, ◌||◌, Bool, true, false, not, List, [], ◌∷◌,
  ◌++◌, Result, ok, err, ◌>>=◌, ◌>>◌, throw_if, if◌then◌else◌, ltb, ◌==◌, length, length-append,
  All, All-append, if-either, any, ltb-false→le,
}
use source2root.Base.Text.{Bytes, is_control}
use source2root.Arguments.{
  TextError, skip_spaces, pushed, token_bytes, one_argument, at_argument, argument_rounds,
  parse_arguments,
}

-- The value satisfies `P`, and no failure is a lack of rounds.
abbrev pub Gives {ℓ} : {A : Type ℓ} → (A → Type 0) → Result TextError A → Type 0
Gives P (ok a) = P a
Gives P (err e) = e ≢ TextError.out_of_rounds

Gives-chain {ℓ κ} :
    {A : Type ℓ} {B : Type κ} (P : A → Type 0) (Q : B → Type 0) (m : Result TextError A)
    (f : A → Result TextError B)
    → Gives P m
    → ((a : A) → P a → Gives Q (f a))
    → Gives Q (m >>= f)
Gives-chain P Q (ok a) f h k = k a h
Gives-chain P Q (err e) f h k = h

throw_if-Gives {ℓ} :
    {A : Type ℓ} (P : A → Type 0) (b : Bool) (e : TextError) (m : Result TextError A)
    → e ≢ TextError.out_of_rounds
    → (b ≡ false → Gives P m)
    → Gives P (throw_if b e >> m)
throw_if-Gives P true e m h k = h
throw_if-Gives P false e m h k = k refl

abbrev Fits : Bytes × Bool × Bytes → Type 0
Fits (token, closed, rest) = length token ≤ 256

pushed-Gives :
    (token : Bytes) (m : Result TextError (Bytes × Bool × Bytes))
    → (length token ≤ 256 → Gives Fits m)
    → Gives Fits (pushed token m)
pushed-Gives token m h =
    if-either (Gives Fits) (ltb 256 (length token)) (λ _ e. cc e)
      λ e. h (ltb-false→le 256 (length token) e)

token_bytes-Gives :
    (q : Bool) (token text : Bytes) → length token ≤ 256 → Gives Fits (token_bytes q token text)
unfolding token_bytes
token_bytes-Gives q token [] h = h
token_bytes-Gives q token (c ∷ []) h =
    if-either (Gives Fits) (c == b'"') (λ _. if-either (Gives Fits) (not q) (λ _ e. cc e) (λ _. h))
      λ _.
        if-either (Gives Fits) (not q && c == 32) (λ _. h)
          λ _. pushed-Gives (token ++ c ∷ []) _ λ k. k
token_bytes-Gives q token (c ∷ d ∷ r) h =
    if-either (Gives Fits) (c == b'"')
      (λ _. if-either (Gives Fits) (not q || not (d == 32)) (λ _ e. cc e) (λ _. h))
      λ _.
        if-either (Gives Fits) (not q && c == 32) (λ _. h)
          λ _.
            if-either (Gives Fits) (c == b'\\' && (d == b'\\' || d == b'"'))
              (λ _. pushed-Gives (token ++ d ∷ []) _ λ k. token_bytes-Gives q (token ++ d ∷ []) r k)
              λ _.
                pushed-Gives (token ++ c ∷ []) _
                  λ k. token_bytes-Gives q (token ++ c ∷ []) (d ∷ r) k

abbrev FitsFirst : Bytes × Bytes → Type 0
FitsFirst (token, rest) = length token ≤ 256

one_argument-Gives : (c : ℕ) (r : Bytes) → Gives FitsFirst (one_argument c r)
unfolding one_argument
one_argument-Gives c r =
    Gives-chain Fits FitsFirst
      (if c == b'"' then token_bytes true [] r else token_bytes false [] (c ∷ r)) _
      (if-either (Gives Fits) (c == b'"') (λ _. token_bytes-Gives true [] r (omega arith))
        λ _. token_bytes-Gives false [] (c ∷ r) (omega arith))
      λ (token, closed, rest) h. throw_if-Gives FitsFirst (not closed) _ _ (λ e. cc e) λ _. h

-- At most 32 arguments, each of at most 256 bytes
abbrev pub AreArguments : List Bytes → Type 0
AreArguments result = (length result ≤ 32) × All (λ a. length a ≤ 256) result

argument_rounds-Gives :
    (f : ℕ) (result : List Bytes) (text : Bytes)
    → 33 ≤ f + length result
    → AreArguments result
    → Gives AreArguments (argument_rounds f result text)
unfolding argument_rounds
argument_rounds-Gives zero result text h k = absurd (omega (arith, k.0))
argument_rounds-Gives (suc f) result text h k = go (skip_spaces text) λ few token rest fits.
    let longer = length-append result (token ∷ []) in
    let room : length result + 1 ≤ 32 = ground (arith, few, k.0) in
    argument_rounds-Gives f (result ++ token ∷ []) rest (omega (arith, longer)) (
      omega (arith, longer, room),
      All-append (λ a. length a ≤ 256) result (token ∷ []) k.1 (fits, tt),
    )
  where
    go :
        (t : Bytes)
        → ((length result == 32) ≡ false
            → (token rest : Bytes) → length token ≤ 256
            → Gives AreArguments (argument_rounds f (result ++ token ∷ []) rest))
        → Gives AreArguments (at_argument (argument_rounds f) result t)
    go [] again = k
    go (c ∷ r) again =
        throw_if-Gives AreArguments (length result == 32) _ _ (λ e. cc e)
          λ few.
            Gives-chain FitsFirst AreArguments (one_argument c r) _ (one_argument-Gives c r)
              λ (token, rest) fits. again few token rest fits

-- ParseArguments always answers, and gives at most 32 arguments, each of at most 256 bytes.
pub parse_arguments-AreArguments : (text : Bytes) → Gives AreArguments (parse_arguments text)
unfolding parse_arguments
parse_arguments-AreArguments text =
    throw_if-Gives AreArguments
      (ltb 1024 (length text) || any (λ c. is_control c || c == b';') text) _ _ (λ e. cc e)
      λ _. argument_rounds-Gives 33 [] text (omega arith) (omega arith, tt)
