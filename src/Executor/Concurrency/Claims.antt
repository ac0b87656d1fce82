-- ===== src/Executor/Concurrency/Claims.antt =====
-- Claims in a queue, or among the permits that are held: what a search finds, and what is left
-- without it (packages/executor/src/concurrency.ts).
use drive_guard.Prelude.{
  ℕ, suc, ◌≡◌, refl, inl, inr, String, Bool, true, false, not, Bool-cases, Option, none, some, List,
  [], ◌∷◌, length, ap, All, eq_refl, arith, str_eq, eq_iff, if◌then◌else◌,
}
use drive_guard.Prelude.Sets.{includes, is_unique, keep, is_unique-keep}
use drive_guard.Executor.Concurrency.{Claim, without, passed_over, first}

-- The vehicles of the side effects among some permits.
abbrev pub vehicles_of : List Claim → List String
vehicles_of [] = []
vehicles_of (c ∷ cs) = if c.side_effect then c.vehicle_id ∷ vehicles_of cs else vehicles_of cs

abbrev pub reads_in : List Claim → ℕ
reads_in [] = 0
reads_in (c ∷ cs) = if c.side_effect then reads_in cs else suc (reads_in cs)

-- A list is a claim, somewhere, and the rest.
pub data Splits (c : Claim) : List Claim → List Claim → Type 0 where
  here : (cs : List Claim) → Splits c (c ∷ cs) cs
  there : (d : Claim) (cs rest : List Claim) → Splits c cs rest → Splits c (d ∷ cs) (d ∷ rest)

-- What is known of the claim that was found, or of all claims if none was.
abbrev pub Found : (Claim → Bool) → List Claim → Option (Claim × List Claim) → Type 0
Found p cs none = All (λ c. p c ≡ false) cs
Found p cs (some (c, rest)) = Splits c cs rest × (p c ≡ true)

pub Found-passed_over :
    (p : Claim → Bool) (d : Claim) (cs : List Claim) (o : Option (Claim × List Claim))
    → p d ≡ false
    → Found p cs o
    → Found p (d ∷ cs) (passed_over d o)
Found-passed_over p d cs none f h = (f, h)
Found-passed_over p d cs (some (c, rest)) f h = (there d cs rest h.0, h.1)

pub first-Found : (p : Claim → Bool) (cs : List Claim) → Found p cs (first p cs)
unfolding first
first-Found p [] = tt
first-Found p (d ∷ cs) = elim (Bool-cases (p d)) [
  | inl t ↦ rw t (here cs, t)
  | inr f ↦ rw f (Found-passed_over p d cs (first p cs) f (first-Found p cs))
]

pub Splits-length :
    {c : Claim} {cs rest : List Claim} → Splits c cs rest → length cs ≡ suc (length rest)
Splits-length (here cs) = refl
Splits-length (there d cs rest h) = ap suc (Splits-length h)

pub reads-Splits :
    {c : Claim} {cs rest : List Claim}
    → Splits c cs rest
    → reads_in cs ≡ (if c.side_effect then reads_in rest else suc (reads_in rest))
reads-Splits (here cs) = refl
reads-Splits {c} (there d cs rest h) = ground (arith, reads-Splits h)

pub length-vehicles :
    {c : Claim} {cs rest : List Claim}
    → Splits c cs rest
    → length (vehicles_of cs)
      ≡ (if c.side_effect then suc (length (vehicles_of rest)) else length (vehicles_of rest))
length-vehicles (here cs) = ground arith
length-vehicles (there d cs rest h) = ground (arith, length-vehicles h)

pub vehicles-read :
    {c : Claim} {cs rest : List Claim}
    → Splits c cs rest
    → c.side_effect ≡ false
    → vehicles_of cs ≡ vehicles_of rest
vehicles-read (here cs) r = rw r refl
vehicles-read (there d cs rest h) r = ground (arith, vehicles-read h r)

pub includes-vehicles :
    {c : Claim} {cs rest : List Claim}
    → Splits c cs rest
    → c.side_effect ≡ true
    → includes (vehicles_of cs) c.vehicle_id ≡ true
unfolding includes
includes-vehicles {c} (here cs) w = rw w (ground (arith, eq_refl c.vehicle_id))
includes-vehicles {c} (there d cs rest h) w = ground (arith, includes-vehicles h w)

pub without-absent : (v : String) (xs : List String) → includes xs v ≡ false → without v xs ≡ xs
unfolding without includes keep
without-absent v [] h = refl
without-absent v (x ∷ xs) h = ground (arith, without-absent v xs)

pub without-vehicles :
    {c : Claim} {cs rest : List Claim}
    → Splits c cs rest
    → c.side_effect ≡ true
    → is_unique (vehicles_of cs) ≡ true
    → without c.vehicle_id (vehicles_of cs) ≡ vehicles_of rest
unfolding without keep is_unique includes
without-vehicles {c} (here cs) w u =
    rw w (ground (arith, w, u, eq_refl c.vehicle_id, without-absent c.vehicle_id (vehicles_of cs)))
without-vehicles {c} (there d cs rest h) w u =
    ground (arith, u, eq_iff d.vehicle_id c.vehicle_id, without-vehicles h w, includes-vehicles h w)

pub unique-without :
    (v : String) (xs : List String) → is_unique xs ≡ true → is_unique (without v xs) ≡ true
unfolding without
unique-without v xs u = is_unique-keep (λ x. not (str_eq x v)) xs u
