-- ===== src/Models/Version.antt =====
-- core-runtime/src/models/version.rs: semantic versions of models. A string is the list of its bytes; an
-- error keeps the bytes of its message's argument.
pub mod Order
pub mod Digits
pub mod RoundTrip
pub mod Tests
use Prim.Native.Nat.{compare, Ordering}
use gg_core.Prelude.{
  ℕ, zero, suc, ◌+◌, ◌-◌, ◌*◌, ◌/◌, ◌%◌, ◌^◌, Bool, true, false, ◌&&◌, ◌||◌, not, Option, none,
  some, List, [], ◌∷◌, ◌++◌, ltb, leb, ◌==◌, if◌then◌else◌,
}

pub data VersionError : Type 0 where
  invalid_format invalid_component invalid_range : List ℕ → VersionError

pub data Result (A : Type 0) : Type 0 where
  ok : A → Result A
  err : VersionError → Result A

infixl 5 ◌>>=◌
abbrev pub ◌>>=◌ : {A B : Type 0} → Result A → (A → Result B) → Result B
ok a >>= f = f a
err e >>= f = err e

pub record ModelVersion : Type 0 where
  pub major : ℕ
  pub minor : ℕ
  pub patch : ℕ
  pub prerelease : Option (List ℕ)

unfoldable pub new : ℕ → ℕ → ℕ → ModelVersion
new major minor patch = record { major = major; minor = minor; patch = patch; prerelease = none }

unfoldable pub with_prerelease : ℕ → ℕ → ℕ → List ℕ → ModelVersion
with_prerelease major minor patch prerelease = record {
  major = major;
  minor = minor;
  patch = patch;
  prerelease = some prerelease;
}

-- str::find of a byte, with the two parts around its first place.
abbrev pub cons_front : ℕ → Option (List ℕ × List ℕ) → Option (List ℕ × List ℕ)
cons_front c none = none
cons_front c (some (front, back)) = some (c ∷ front, back)

unfoldable pub split_once : ℕ → List ℕ → Option (List ℕ × List ℕ)
split_once sep [] = none
split_once sep (c ∷ s) =
    let rest = cons_front c (split_once sep s) in if c == sep then some ([], s) else rest

-- str::split of a byte.
abbrev pub cons_first : ℕ → List (List ℕ) → List (List ℕ)
cons_first c [] = (c ∷ []) ∷ []
cons_first c (p ∷ ps) = (c ∷ p) ∷ ps

unfoldable pub split : ℕ → List ℕ → List (List ℕ)
split sep [] = [] ∷ []
split sep (c ∷ s) = let rest = split sep s in if c == sep then [] ∷ rest else cons_first c rest

abbrev pub is_digit : ℕ → Bool
is_digit c = leb b'0' c && leb c b'9'

-- The digits of u32::from_str behind its sign: the number so far, unless it leaves the type.
unfoldable pub parse_digits : ℕ → List ℕ → Option ℕ
parse_digits acc [] = some acc
parse_digits acc (c ∷ s) =
    let rest = parse_digits (acc * 10 + (c - b'0')) s in
    if is_digit c && ltb (acc * 10 + (c - b'0')) (2 ^ 32) then rest else none

-- A leading plus sign is allowed where digits follow it.
unfoldable pub parse_u32 : List ℕ → Option ℕ
unfolding parse_digits
parse_u32 [] = none
parse_u32 (c ∷ []) = parse_digits 0 (c ∷ [])
parse_u32 (c ∷ d ∷ s) = if c == b'+' then parse_digits 0 (d ∷ s) else parse_digits 0 (c ∷ d ∷ s)

unfoldable pub parse_part : List ℕ → Result ℕ
unfolding parse_u32
parse_part p = elim (parse_u32 p) [ none ↦ err (invalid_component p) | some n ↦ ok n ]

-- The three parts and the prerelease, with the whole text for an error.
unfoldable pub parse_parts : List ℕ → Option (List ℕ) → List (List ℕ) → Result ModelVersion
unfolding parse_part
parse_parts s prerelease (a ∷ b ∷ c ∷ []) = do
  major ← parse_part a
  minor ← parse_part b
  patch ← parse_part c
  ok (record { major = major; minor = minor; patch = patch; prerelease = prerelease })
parse_parts s prerelease parts = err (invalid_format s)

unfoldable pub parse : List ℕ → Result ModelVersion
unfolding split_once split parse_parts
parse s = elim (split_once b'-' s) [
  | none ↦ parse_parts s none (split b'.' s)
  | some (version_part, prerelease) ↦ parse_parts s (some prerelease) (split b'.' version_part)
]

-- The decimal digits of a number, the last ones first done; fuel above the number is enough.
unfoldable pub show_fuel : ℕ → ℕ → List ℕ → List ℕ
show_fuel zero n rest = rest
show_fuel (suc fuel) n rest =
    let more = show_fuel fuel (n / 10) ((b'0' + n % 10) ∷ rest) in
    if n / 10 == 0 then (b'0' + n % 10) ∷ rest else more

unfoldable pub show_u32 : ℕ → List ℕ
unfolding show_fuel
show_u32 n = show_fuel 10 n []

abbrev pub suffix : Option (List ℕ) → List ℕ
suffix none = []
suffix (some pre) = b'-' ∷ pre

-- fmt::Display
unfoldable pub fmt : ModelVersion → List ℕ
unfolding show_u32
fmt v =
    show_u32 v.major
    ++ (b'.' ∷ (show_u32 v.minor ++ (b'.' ∷ (show_u32 v.patch ++ suffix v.prerelease))))

-- The first difference decides.
abbrev pub or_else : Ordering → Ordering → Ordering
or_else Ordering.eq o = o
or_else Ordering.lt o = Ordering.lt
or_else Ordering.gt o = Ordering.gt

-- The order of strings, by bytes.
unfoldable pub cmp_bytes : List ℕ → List ℕ → Ordering
cmp_bytes [] [] = Ordering.eq
cmp_bytes [] (y ∷ ys) = Ordering.lt
cmp_bytes (x ∷ xs) [] = Ordering.gt
cmp_bytes (x ∷ xs) (y ∷ ys) = or_else (compare x y) (cmp_bytes xs ys)

unfoldable pub cmp_prerelease : Option (List ℕ) → Option (List ℕ) → Ordering
unfolding cmp_bytes
cmp_prerelease none none = Ordering.eq
cmp_prerelease (some a) none = Ordering.lt
cmp_prerelease none (some b) = Ordering.gt
cmp_prerelease (some a) (some b) = cmp_bytes a b

unfoldable pub cmp : ModelVersion → ModelVersion → Ordering
unfolding cmp_prerelease
cmp a b = or_else (compare a.major b.major) (
    or_else (compare a.minor b.minor)
      (or_else (compare a.patch b.patch) (cmp_prerelease a.prerelease b.prerelease)))

pub record VersionRange : Type 0 where
  pub min : Option ModelVersion
  pub max : Option ModelVersion
  pub include_prerelease : Bool

unfoldable pub any : VersionRange
any = record { min = none; max = none; include_prerelease = false }

unfoldable pub exact : ModelVersion → VersionRange
exact version = record { min = some version; max = some version; include_prerelease = true }

unfoldable pub at_least : ModelVersion → VersionRange
at_least version = record { min = some version; max = none; include_prerelease = false }

unfoldable pub below : ModelVersion → VersionRange
below version = record { min = none; max = some version; include_prerelease = false }

unfoldable pub between : ModelVersion → ModelVersion → VersionRange
between least most = record { min = some least; max = some most; include_prerelease = false }

abbrev pub is_lt : Ordering → Bool
is_lt Ordering.lt = true
is_lt Ordering.eq = false
is_lt Ordering.gt = false

abbrev pub is_gt : Ordering → Bool
is_gt Ordering.lt = false
is_gt Ordering.eq = false
is_gt Ordering.gt = true

abbrev pub is_some {ℓ} : {A : Type ℓ} → Option A → Bool
is_some none = false
is_some (some a) = true

-- self < min
abbrev pub under : ModelVersion → Option ModelVersion → Bool
under v none = false
under v (some m) = is_lt (cmp v m)

-- self > max
abbrev pub over : ModelVersion → Option ModelVersion → Bool
over v none = false
over v (some m) = is_gt (cmp v m)

unfoldable pub satisfies : ModelVersion → VersionRange → Bool
unfolding cmp
satisfies v range =
    if not range.include_prerelease && is_some v.prerelease
    then false
    else if under v range.min
    then false
    else if over v range.max
    then false
    else true
