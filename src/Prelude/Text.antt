-- ===== src/Prelude/Text.antt =====
-- Texts as lists of code points, and Go's `strings.TrimSpace`, `HasPrefix` and `ToLower`, which is
-- that of ASCII letters here.
use Prim.Native.Char.{Char, code}
use Prim.Native.Nat.{ℕ}
use Prim.Native.String.{String}
use mathlib.Core.Bool.{Bool, true, false, ◌&&◌, ◌||◌}
use mathlib.Core.Path.{◌≡◌, refl, sym, ap, ◌∙◌}
use native.Mathlib.Omega.{arith}
use mathlib.Core.List.{List, [], ◌∷◌}
use mathlib.Core.Logic.{◌⊎◌, inl, inr}
use loomwatch.Prelude.Tests.{Bool-cases, leb, nat_beq, nat_beq_iff, if◌then◌else◌}

-- The code points of a text: its bytes, if it is ASCII.
abbrev pub codes : String → List ℕ
codes String.[] = []
codes (String.◌∷◌ c s) = code c ∷ codes s

-- `unicode.IsSpace`
unfoldable pub is_space : ℕ → Bool
is_space c =
    leb 9 c && leb c 13
    || nat_beq c 0x20
    || nat_beq c 0x85
    || nat_beq c 0xa0
    || nat_beq c 0x1680
    || leb 0x2000 c && leb c 0x200a
    || nat_beq c 0x2028
    || nat_beq c 0x2029
    || nat_beq c 0x202f
    || nat_beq c 0x205f
    || nat_beq c 0x3000

pub trim_left : String → String
trim_left String.[] = String.[]
trim_left (String.◌∷◌ c s) =
    let rest = trim_left s in if is_space (code c) then rest else String.◌∷◌ c s

-- Appends a character unless it is a space before nothing.
pub trim_cons : Char → String → String
trim_cons c String.[] = if is_space (code c) then String.[] else String.◌∷◌ c String.[]
trim_cons c (String.◌∷◌ d s) = String.◌∷◌ c (String.◌∷◌ d s)

pub trim_right : String → String
unfolding trim_cons
trim_right String.[] = String.[]
trim_right (String.◌∷◌ c s) = trim_cons c (trim_right s)

unfoldable pub trim_space : String → String
unfolding trim_left trim_right is_space
trim_space s = trim_left (trim_right s)

trim_left_idem : (s : String) → trim_left (trim_left s) ≡ trim_left s
unfolding trim_left
trim_left_idem String.[] = refl
trim_left_idem (String.◌∷◌ c s) = ground (arith, trim_left_idem s)

trim_cons_idem :
    (c : Char) (s : String) → trim_right s ≡ s → trim_right (trim_cons c s) ≡ trim_cons c s
unfolding trim_right trim_cons
trim_cons_idem c String.[] h = elim (Bool-cases (is_space (code c))) [
  | inl blank ↦ rw blank refl
  | inr kept ↦ rw kept (rw (trim_cons, kept) refl)
]
trim_cons_idem c (String.◌∷◌ d s) h = rw h refl

trim_right_idem : (s : String) → trim_right (trim_right s) ≡ trim_right s
unfolding trim_right
trim_right_idem String.[] = refl
trim_right_idem (String.◌∷◌ c s) = trim_cons_idem c (trim_right s) (trim_right_idem s)

trim_left_space :
    (c : Char) (s : String) → is_space (code c) ≡ true → trim_left (trim_cons c s) ≡ trim_left s
unfolding trim_left trim_cons
trim_left_space c String.[] h = rw h refl
trim_left_space c (String.◌∷◌ d s) h = rw h refl

trim_left_kept :
    (c : Char) (s : String) → is_space (code c) ≡ false → trim_left (trim_cons c s) ≡ trim_cons c s
unfolding trim_left trim_cons
trim_left_kept c String.[] h = rw h (rw (trim_left, h) refl)
trim_left_kept c (String.◌∷◌ d s) h = rw h refl

-- The two sides may be trimmed in either order.
trim_comm : (s : String) → trim_right (trim_left s) ≡ trim_left (trim_right s)
unfolding trim_left trim_right
trim_comm String.[] = refl
trim_comm (String.◌∷◌ c s) = elim (Bool-cases (is_space (code c))) [
  | inl blank ↦ rw blank (trim_comm s ∙ sym (trim_left_space c (trim_right s) blank))
  | inr kept ↦ rw kept (sym (trim_left_kept c (trim_right s) kept))
]

-- Trimming a trimmed text changes nothing.
pub trim_space_idem : (s : String) → trim_space (trim_space s) ≡ trim_space s
unfolding trim_space
trim_space_idem s =
    ap trim_left (trim_comm (trim_right s))
    ∙ trim_left_idem (trim_right (trim_right s))
    ∙ ap trim_left (trim_right_idem s)

abbrev is_prefix : List ℕ → List ℕ → Bool
is_prefix [] s = true
is_prefix (c ∷ p) [] = false
is_prefix (c ∷ p) (d ∷ s) = nat_beq c d && is_prefix p s

-- `strings.HasPrefix(s, prefix)`
unfoldable pub has_prefix : String → String → Bool
has_prefix s prefix = is_prefix (codes prefix) (codes s)

-- The character that stands in the second text where the first has this one.
abbrev replaced : Char → String → String → Char
replaced c String.[] to = c
replaced c (String.◌∷◌ a from) String.[] = c
replaced c (String.◌∷◌ a from) (String.◌∷◌ b to) =
    if nat_beq (code a) (code c) then b else replaced c from to

-- `strings.ToLower`
unfoldable pub to_lower : String → String
to_lower String.[] = String.[]
to_lower (String.◌∷◌ c s) =
    String.◌∷◌ (replaced c "ABCDEFGHIJKLMNOPQRSTUVWXYZ" "abcdefghijklmnopqrstuvwxyz") (to_lower s)

-- No character of a text is a space.
abbrev IsSolid : String → Type 0
IsSolid String.[] = Unit {0}
IsSolid (String.◌∷◌ c s) = (is_space (code c) ≡ false) × IsSolid s

is_space-replaced :
    (c : Char) (from to : String)
    → IsSolid from
    → IsSolid to
    → is_space (code (replaced c from to)) ≡ is_space (code c)
is_space-replaced c String.[] to h k = refl
is_space-replaced c (String.◌∷◌ a from) String.[] h k = refl
is_space-replaced c (String.◌∷◌ a from) (String.◌∷◌ b to) h k =
    elim (Bool-cases (nat_beq (code a) (code c))) [
      | inl same ↦
          let e : code a ≡ code c = (nat_beq_iff (code a) (code c)).0 same in
          rw same (k.0 ∙ sym (sym (ap is_space e) ∙ h.0))
      | inr differs ↦ rw differs (is_space-replaced c from to h.1 k.1)
    ]

-- `ToLower` of one character.
abbrev lowered : Char → Char
lowered c = replaced c "ABCDEFGHIJKLMNOPQRSTUVWXYZ" "abcdefghijklmnopqrstuvwxyz"

-- Every character of a text is its own lower case.
abbrev IsLower : String → Type 0
IsLower String.[] = Unit {0}
IsLower (String.◌∷◌ c s) = (lowered c ≡ c) × IsLower s

lowered-replaced :
    (c : Char) (from to : String)
    → IsLower to
    → (lowered (replaced c from to) ≡ replaced c from to) ⊎ (replaced c from to ≡ c)
lowered-replaced c String.[] to h = inr refl
lowered-replaced c (String.◌∷◌ a from) String.[] h = inr refl
lowered-replaced c (String.◌∷◌ a from) (String.◌∷◌ b to) h =
    elim (Bool-cases (nat_beq (code a) (code c))) [
      | inl same ↦ rw same (inl h.0)
      | inr differs ↦ rw differs (lowered-replaced c from to h.1)
    ]

alphabet-IsSolid : IsSolid "ABCDEFGHIJKLMNOPQRSTUVWXYZ" × IsSolid "abcdefghijklmnopqrstuvwxyz"
unfolding is_space
alphabet-IsSolid = ground arith

alphabet-IsLower : IsLower "abcdefghijklmnopqrstuvwxyz"
alphabet-IsLower = ground arith

is_space-lowered : (c : Char) → is_space (code (lowered c)) ≡ is_space (code c)
is_space-lowered c =
    is_space-replaced c "ABCDEFGHIJKLMNOPQRSTUVWXYZ" "abcdefghijklmnopqrstuvwxyz" alphabet-IsSolid.0
      alphabet-IsSolid.1

lowered_idem : (c : Char) → lowered (lowered c) ≡ lowered c
lowered_idem c =
    elim (lowered-replaced c "ABCDEFGHIJKLMNOPQRSTUVWXYZ" "abcdefghijklmnopqrstuvwxyz"
      alphabet-IsLower) [ inl same ↦ same | inr kept ↦ ap lowered kept ]

to_lower_idem : (s : String) → to_lower (to_lower s) ≡ to_lower s
unfolding to_lower
to_lower_idem String.[] = refl
to_lower_idem (String.◌∷◌ c s) = cc (lowered_idem c, to_lower_idem s)

trim_left-to_lower : (s : String) → trim_left (to_lower s) ≡ to_lower (trim_left s)
unfolding to_lower trim_left
trim_left-to_lower String.[] = refl
trim_left-to_lower (String.◌∷◌ c s) = elim (Bool-cases (is_space (code c))) [
  | inl blank ↦ rw (is_space-lowered c, blank) (trim_left-to_lower s)
  | inr kept ↦ rw (is_space-lowered c, kept) refl
]

trim_cons-to_lower :
    (c : Char) (s : String) → trim_cons (lowered c) (to_lower s) ≡ to_lower (trim_cons c s)
unfolding to_lower trim_cons
trim_cons-to_lower c String.[] = elim (Bool-cases (is_space (code c))) [
  | inl blank ↦ rw (is_space-lowered c, blank) refl
  | inr kept ↦ rw (is_space-lowered c, kept) refl
]
trim_cons-to_lower c (String.◌∷◌ d s) = refl

trim_right-to_lower : (s : String) → trim_right (to_lower s) ≡ to_lower (trim_right s)
unfolding to_lower trim_right
trim_right-to_lower String.[] = refl
trim_right-to_lower (String.◌∷◌ c s) =
    ap (trim_cons (lowered c)) (trim_right-to_lower s) ∙ trim_cons-to_lower c (trim_right s)

-- A trimmed text in lower case is trimmed and in lower case.
pub to_lower-trim_space_idem :
    (s : String) → to_lower (trim_space (to_lower (trim_space s))) ≡ to_lower (trim_space s)
unfolding trim_space
to_lower-trim_space_idem s =
    ap (λ t. to_lower (trim_left t)) (trim_right-to_lower (trim_left (trim_right s)))
    ∙ ap to_lower (trim_left-to_lower (trim_right (trim_left (trim_right s))))
    ∙ to_lower_idem (trim_space (trim_space s))
    ∙ ap to_lower (trim_space_idem s)
