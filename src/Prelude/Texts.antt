-- ===== src/Prelude/Texts.antt =====
-- Go's strings where the program reads their characters: lists of code points. Letters change their
-- case by the ASCII rules; other letters stay as they are.
use Prim.Native.Nat.{ℕ, ◌+◌, ◌-◌, ◌*◌}
use Prim.Native.Char.{code}
use Prim.Native.String.{String}
use mathlib.Core.Path.{◌≡◌, refl}
use mathlib.Core.Logic.{◌↔◌, inl, inr}
use mathlib.Core.Bool.{Bool, true, false, ◌&&◌, ◌||◌}
use mathlib.Core.Option.{Option, none, some}
use mathlib.Core.List.{List, [], ◌∷◌, map}
use native.Mathlib.Omega.{arith}
use integration_console.Prelude.Tests.{leb, ltb, ◌==◌, if◌then◌else◌, Bool-cases}

abbrev pub Text : Type 0
Text = List ℕ

-- A literal as code points.
abbrev pub codes : String → Text
codes String.[] = []
codes (String.◌∷◌ c s) = code c ∷ codes s

-- Go's `==` on strings.
abbrev pub same_text : Text → Text → Bool
same_text [] [] = true
same_text [] (d ∷ t) = false
same_text (c ∷ s) [] = false
same_text (c ∷ s) (d ∷ t) = (c == d) && same_text s t

-- unicode.IsSpace
unfoldable pub is_space : ℕ → Bool
is_space c =
    (leb 9 c && leb c 13)
    || (c == 32)
    || (c == 133)
    || (c == 160)
    || (c == 5760)
    || (leb 8192 c && leb c 8202)
    || (c == 8232)
    || (c == 8233)
    || (c == 8239)
    || (c == 8287)
    || (c == 12288)

unfoldable pub trim_left : Text → Text
trim_left [] = []
trim_left (c ∷ s) = let rest = trim_left s in if is_space c then rest else c ∷ s

-- A character put before what is left of the end.
unfoldable pub keep_before : ℕ → Text → Text
keep_before c [] = if is_space c then [] else c ∷ []
keep_before c (d ∷ t) = c ∷ d ∷ t

unfoldable pub trim_right : Text → Text
unfolding keep_before
trim_right [] = []
trim_right (c ∷ s) = keep_before c (trim_right s)

-- strings.TrimSpace
unfoldable pub trim_space : Text → Text
unfolding trim_left trim_right
trim_space s = trim_right (trim_left s)

unfoldable pub lower_code : ℕ → ℕ
lower_code c = if leb 65 c && leb c 90 then c + 32 else c

-- strings.ToLower
unfoldable pub to_lower : Text → Text
unfolding lower_code
to_lower s = map lower_code s

-- strings.EqualFold
unfoldable pub equal_fold : Text → Text → Bool
unfolding to_lower
equal_fold s t = same_text (to_lower s) (to_lower t)

pub same_text→≡ : (s t : Text) → same_text s t ≡ true → s ≡ t
same_text→≡ [] [] h = refl
same_text→≡ [] (d ∷ t) h = cc
same_text→≡ (c ∷ s) [] h = cc
same_text→≡ (c ∷ s) (d ∷ t) h =
    let both : (c ≡ d) × (same_text s t ≡ true) = ground arith in
    cc (both.0, same_text→≡ s t both.1)

pub same_text_refl : (s : Text) → same_text s s ≡ true
same_text_refl [] = refl
same_text_refl (c ∷ s) = ground (arith, same_text_refl s)

pub same_text_iff : (s t : Text) → (same_text s t ≡ true) ↔ (s ≡ t)
same_text_iff s t = (same_text→≡ s t, λ e. rw e (same_text_refl t))

abbrev pub is_empty : Text → Bool
is_empty [] = true
is_empty (c ∷ s) = false

-- A look-up in a set of strings that a loop has filled.
abbrev pub contains : Text → List Text → Bool
contains s [] = false
contains s (t ∷ ts) = same_text t s || contains s ts

-- No string stands twice in the list.
abbrev pub AreDistinct : List Text → Type 0
AreDistinct [] = Unit
AreDistinct (s ∷ ts) = (contains s ts ≡ false) × AreDistinct ts

-- The order of sort.Strings.
abbrev pub text_less : Text → Text → Bool
text_less s [] = false
text_less [] (d ∷ t) = true
text_less (c ∷ s) (d ∷ t) = ltb c d || ((c == d) && text_less s t)

unfoldable pub insert_text : Text → List Text → List Text
insert_text s [] = s ∷ []
insert_text s (t ∷ ts) =
    let rest = insert_text s ts in if text_less t s then t ∷ rest else s ∷ t ∷ ts

-- sort.Strings
unfoldable pub sort_texts : List Text → List Text
unfolding insert_text
sort_texts [] = []
sort_texts (s ∷ ts) = insert_text s (sort_texts ts)

-- The loop that trims each value, drops the blank ones, maps the others and keeps the first of each.
-- `seen` is the set of what it has kept.
unfoldable pub collect : (Text → Text) → List Text → List Text → List Text
unfolding trim_space
collect f seen [] = []
collect f seen (v ∷ vs) =
    let skipped = is_empty (trim_space v) || contains (f (trim_space v)) seen in
    let rest = collect f (if skipped then seen else f (trim_space v) ∷ seen) vs in
    if skipped then rest else f (trim_space v) ∷ rest

-- What the loop keeps is new and different from what it has kept before.
collect_unseen :
    (f : Text → Text) (seen vs : List Text) (s : Text)
    → contains s seen ≡ true
    → contains s (collect f seen vs) ≡ false
unfolding collect
collect_unseen f seen [] s h = refl
collect_unseen f seen (v ∷ vs) s h =
    elim (Bool-cases (is_empty (trim_space v) || contains (f (trim_space v)) seen)) [
      | inl skipped ↦ rw skipped (collect_unseen f seen vs s h)
      | inr taken ↦
          (let other : same_text (f (trim_space v)) s ≡ false =
              elim (Bool-cases (same_text (f (trim_space v)) s)) [
                | inl same ↦
                    (let e = same_text→≡ (f (trim_space v)) s same in ground (arith, h, taken, e))
                | inr differs ↦ differs
              ] in
            let later : contains s (f (trim_space v) ∷ seen) ≡ true = ground (arith, h, other) in
            rw (taken, other) (collect_unseen f (f (trim_space v) ∷ seen) vs s later))
    ]

pub collect-AreDistinct : (f : Text → Text) (seen vs : List Text) → AreDistinct (collect f seen vs)
unfolding collect
collect-AreDistinct f seen [] = tt
collect-AreDistinct f seen (v ∷ vs) =
    elim (Bool-cases (is_empty (trim_space v) || contains (f (trim_space v)) seen)) [
      | inl skipped ↦ rw skipped (collect-AreDistinct f seen vs)
      | inr taken ↦
          (let here : contains (f (trim_space v)) (f (trim_space v) ∷ seen) ≡ true =
              ground (arith, same_text_refl (f (trim_space v))) in
            rw taken (
              collect_unseen f (f (trim_space v) ∷ seen) vs (f (trim_space v)) here,
              collect-AreDistinct f (f (trim_space v) ∷ seen) vs,
            ))
    ]

abbrev pub hex_value : ℕ → Option ℕ
hex_value c =
    if leb 48 c && leb c 57
    then some (c - 48)
    else if leb 97 c && leb c 102
    then some (c - 87)
    else if leb 65 c && leb c 70
    then some (c - 55)
    else none

abbrev pub byte_before : Option ℕ → Option ℕ → Option Text → Option Text
byte_before (some high) (some low) (some rest) = some ((16 * high + low) ∷ rest)
byte_before none low rest = none
byte_before (some high) none rest = none
byte_before (some high) (some low) none = none

-- hex.DecodeString
unfoldable pub decode_hex : Text → Option Text
decode_hex [] = some []
decode_hex (c ∷ []) = none
decode_hex (c ∷ d ∷ s) = byte_before (hex_value c) (hex_value d) (decode_hex s)
