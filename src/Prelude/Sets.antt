-- ===== src/Prelude/Sets.antt =====
-- Lists of texts used as sets: `new Set(xs)`, `Array.prototype.sort`, and what they keep.
use Prim.Native.String.{String}
use mathlib.Core.Path.{◌≡◌, refl}
use mathlib.Core.Bool.{Bool, true, false, not, ◌&&◌, ◌||◌}
use mathlib.Core.List.{List, [], ◌∷◌}
use native.Mathlib.Omega.{arith}
use text.Mathlib.Text.{◌==◌ as str_eq}
use text.Mathlib.TextEquality.{eq_iff}
use drive_guard.Prelude.Tests.{if◌then◌else◌}
use drive_guard.Prelude.Lists.{any, all}

-- `includes`, `has`
unfoldable pub includes : List String → String → Bool
includes names name = any (λ n. str_eq n name) names

unfoldable pub keep {ℓ} : {A : Type ℓ} → (A → Bool) → List A → List A
keep p [] = []
keep p (x ∷ xs) = let rest = keep p xs in if p x then x ∷ rest else rest

-- The distinct entries. The set keeps first occurrences and this keeps last ones; every use sorts
-- the result, or asks only for its size.
unfoldable pub unique : List String → List String
unfolding includes
unique [] = []
unique (x ∷ xs) = let rest = unique xs in if includes xs x then rest else x ∷ rest

insert : (String → String → Bool) → String → List String → List String
insert before x [] = x ∷ []
insert before x (y ∷ ys) =
    let rest = insert before x ys in if before y x then y ∷ rest else x ∷ y ∷ ys

unfoldable pub sort : (String → String → Bool) → List String → List String
unfolding insert
sort before [] = []
sort before (x ∷ xs) = insert before x (sort before xs)

-- `new Set(xs).size === xs.length`
unfoldable pub is_unique : List String → Bool
unfolding includes
is_unique [] = true
is_unique (x ∷ xs) = not (includes xs x) && is_unique xs

any-insert :
    (p : String → Bool) (before : String → String → Bool) (x : String) (xs : List String)
    → any p (insert before x xs) ≡ (p x || any p xs)
unfolding insert
any-insert p before x [] = refl
any-insert p before x (y ∷ ys) = ground (arith, any-insert p before x ys)

pub any-sort :
    (p : String → Bool) (before : String → String → Bool) (xs : List String)
    → any p (sort before xs) ≡ any p xs
unfolding sort
any-sort p before [] = refl
any-sort p before (x ∷ xs) =
    ground (arith, any-insert p before x (sort before xs), any-sort p before xs)

all-insert :
    (p : String → Bool) (before : String → String → Bool) (x : String) (xs : List String)
    → all p (insert before x xs) ≡ (p x && all p xs)
unfolding insert
all-insert p before x [] = refl
all-insert p before x (y ∷ ys) = ground (arith, all-insert p before x ys)

pub all-sort :
    (p : String → Bool) (before : String → String → Bool) (xs : List String)
    → all p (sort before xs) ≡ all p xs
unfolding sort
all-sort p before [] = refl
all-sort p before (x ∷ xs) =
    ground (arith, all-insert p before x (sort before xs), all-sort p before xs)

any_of_includes :
    (p : String → Bool) (x : String) (xs : List String)
    → includes xs x ≡ true
    → p x ≡ true
    → any p xs ≡ true
unfolding includes
any_of_includes p x [] h t = h
any_of_includes p x (y ∷ ys) h t = ground (arith, eq_iff y x, any_of_includes p x ys)

pub any-unique : (p : String → Bool) (xs : List String) → any p (unique xs) ≡ any p xs
unfolding unique
any-unique p [] = refl
any-unique p (x ∷ xs) = ground (arith, any-unique p xs, any_of_includes p x xs)

pub all-unique : (p : String → Bool) (xs : List String) → all p xs ≡ true → all p (unique xs) ≡ true
unfolding unique
all-unique p [] h = refl
all-unique p (x ∷ xs) h = ground (arith, all-unique p xs)

pub is_unique-unique : (xs : List String) → is_unique (unique xs) ≡ true
unfolding is_unique unique includes
is_unique-unique [] = refl
is_unique-unique (x ∷ xs) = ground (arith, is_unique-unique xs, any-unique (λ n. str_eq n x) xs)

is_unique-insert :
    (before : String → String → Bool) (x : String) (xs : List String)
    → includes xs x ≡ false
    → is_unique xs ≡ true
    → is_unique (insert before x xs) ≡ true
unfolding is_unique insert includes
is_unique-insert before x [] h u = refl
is_unique-insert before x (y ∷ ys) h u = ground (
  arith,
  is_unique-insert before x ys,
  any-insert (λ n. str_eq n y) before x ys,
  eq_iff y x,
  eq_iff x y,
)

pub is_unique-sort :
    (before : String → String → Bool) (xs : List String)
    → is_unique xs ≡ true
    → is_unique (sort before xs) ≡ true
unfolding is_unique sort includes
is_unique-sort before [] h = refl
is_unique-sort before (x ∷ xs) h =
    is_unique-insert before x (sort before xs)
      (unfold includes in (ground (arith, any-sort (λ n. str_eq n x) before xs)))
      (is_unique-sort before xs (ground arith))

pub any-keep :
    (p q : String → Bool) (xs : List String) → any q (keep p xs) ≡ any (λ x. p x && q x) xs
unfolding keep
any-keep p q [] = refl
any-keep p q (x ∷ xs) = ground (arith, any-keep p q xs)

pub all-keep_self : (p : String → Bool) (xs : List String) → all p (keep p xs) ≡ true
unfolding keep
all-keep_self p [] = refl
all-keep_self p (x ∷ xs) = ground (arith, all-keep_self p xs)

pub all-keep : (p q : String → Bool) (xs : List String) → all q xs ≡ true → all q (keep p xs) ≡ true
unfolding keep
all-keep p q [] h = refl
all-keep p q (x ∷ xs) h = ground (arith, all-keep p q xs)

pub includes-keep :
    (p : String → Bool) (x : String) (xs : List String)
    → includes xs x ≡ false
    → includes (keep p xs) x ≡ false
unfolding keep includes
includes-keep p x [] h = refl
includes-keep p x (y ∷ ys) h = ground (arith, includes-keep p x ys)

pub is_unique-keep :
    (p : String → Bool) (xs : List String) → is_unique xs ≡ true → is_unique (keep p xs) ≡ true
unfolding keep is_unique
is_unique-keep p [] h = refl
is_unique-keep p (x ∷ xs) h = ground (arith, is_unique-keep p xs, includes-keep p x xs)
