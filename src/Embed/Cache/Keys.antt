-- ===== src/Embed/Cache/Keys.antt =====
-- What CacheKey of cache.go hashes tells kinds and generations apart.
use integration_console.Prelude.{
  ℕ, zero, suc, ◌+◌, ◌-◌, ◌*◌, ◌/◌, ◌%◌, ◌^◌, ◌<◌, ◌≡◌, refl, ap, sym, ◌∙◌, inl, inr, [], ◌∷◌, ◌++◌,
  ltb, Text, All, All-append, arith, Bool-cases,
}
use integration_console.Embed.Cache.{decimal, key_text}

abbrev tens : ℕ → ℕ
tens zero = 1
tens (suc n) = 10 * tens n

-- The number that digits stand for, after a number already read.
abbrev read_from : ℕ → Text → ℕ
read_from n [] = n
read_from n (c ∷ cs) = read_from (10 * n + (c - 48)) cs

read_from-append :
    (n : ℕ) (cs : Text) (c : ℕ) → read_from n (cs ++ (c ∷ [])) ≡ 10 * read_from n cs + (c - 48)
read_from-append n [] c = refl
read_from-append n (d ∷ cs) c = read_from-append (10 * n + (d - 48)) cs c

read_from-decimal : (fuel n : ℕ) → n < tens fuel → read_from 0 (decimal fuel n) ≡ n
unfolding decimal
read_from-decimal zero n h = omega (arith, h)
read_from-decimal (suc fuel) n h = elim (Bool-cases (ltb n 10)) [
  | inl small ↦ rw small (omega arith)
  | inr large ↦
      (let rest = read_from-decimal fuel (n / 10) (omega (arith, h)) in
        let last = read_from-append 0 (decimal fuel (n / 10)) (48 + n % 10) in
        rw large (omega (arith, rest, last)))
]

-- No character is NUL.
abbrev pub IsPlain : Text → Type 0
IsPlain s = All (λ c. 0 < c) s

decimal-IsPlain : (fuel n : ℕ) → IsPlain (decimal fuel n)
unfolding decimal
decimal-IsPlain zero n = tt
decimal-IsPlain (suc fuel) n = elim (Bool-cases (ltb n 10)) [
  | inl small ↦ rw small (omega arith, tt)
  | inr large ↦ rw large (
      All-append (λ c. 0 < c) (decimal fuel (n / 10)) ((48 + n % 10) ∷ [])
        (decimal-IsPlain fuel (n / 10)) (omega arith, tt))
]

tail-eq : {a b : ℕ} {s t : Text} → ◌≡◌ {A = Text} (a ∷ s) (b ∷ t) → (a ≡ b) × (s ≡ t)
tail-eq h = (cc, cc)

no_nul : (s t d : Text) → IsPlain d → d ≡ s ++ (0 ∷ t) → ⊥
no_nul [] t [] h e = cc
no_nul [] t (c ∷ d) h e = (let zero_is = (tail-eq e).0 in omega (arith, h.0, zero_is))
no_nul (a ∷ s) t [] h e = cc
no_nul (a ∷ s) t (c ∷ d) h e = no_nul s t d h.1 (tail-eq e).1

-- The last NUL of a text splits it in one way.
split_last :
    (s s' d d' : Text)
    → IsPlain d
    → IsPlain d'
    → s ++ (0 ∷ d) ≡ s' ++ (0 ∷ d')
    → (s ≡ s') × (d ≡ d')
split_last [] [] d d' h h' e = (refl, (tail-eq e).1)
split_last [] (a ∷ s') d d' h h' e = absurd (no_nul s' d' d h (tail-eq e).1)
split_last (a ∷ s) [] d d' h h' e = absurd (no_nul s d d' h' (sym (tail-eq e).1))
split_last (a ∷ s) (b ∷ s') d d' h h' e =
    let (head, tail) = tail-eq e in let (rest, same) = split_last s s' d d' h h' tail in (cc, same)

-- Of kinds without NUL and generations that fit a uint64, equal texts to hash have equal kinds and equal
-- generations, whatever characters the texts themselves have.
pub key_text-inj :
    (t t' k k' : Text) (g g' : ℕ)
    → IsPlain k
    → IsPlain k'
    → g < 2 ^ 64
    → g' < 2 ^ 64
    → key_text t k g ≡ key_text t' k' g'
    → (k ≡ k') × (g ≡ g')
unfolding key_text
key_text-inj t t' k k' g g' h h' small small' e =
    let (front, digits) =
      split_last (t ++ (0 ∷ k)) (t' ++ (0 ∷ k')) (decimal 20 g) (decimal 20 g')
        (decimal-IsPlain 20 g) (decimal-IsPlain 20 g') e in
    let kinds = (split_last t t' k k' h h' front).1 in
    let one = read_from-decimal 20 g (omega (arith, small)) in
    let other = read_from-decimal 20 g' (omega (arith, small')) in
    (kinds, sym one ∙ ap (read_from 0) digits ∙ other)
