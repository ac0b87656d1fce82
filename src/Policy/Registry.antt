-- ===== src/Policy/Registry.antt =====
-- packages/policy/src/registry.ts: PolicyRuleRegistry. The Map from rule ids to rules is the list
-- of its values in insertion order.
pub mod Extension
use drive_guard.Prelude.{
  ℕ, String, Bool, true, false, ◌&&◌, Option, none, some, List, [], ◌∷◌, ◌++◌, any, all, length,
  leb, ltb, ◌==◌, str_eq, if◌then◌else◌,
}
use drive_guard.Prelude.Text.{codes, is_digit}
use drive_guard.Policy.{Rule}

pub data RegistryError : Type 0 where
  duplicate_rule_id invalid_rule : RegistryError

pub data Registered : Type 0 where
  registered : List Rule → Registered
  refused : RegistryError → Registered

abbrev pub reserved_precedence : List (ℕ × String)
reserved_precedence =
    (0, "DG-POL-001")
    ∷ (1, "DG-POL-002")
    ∷ (2, "DG-POL-003")
    ∷ (3, "DG-POL-004")
    ∷ (4, "DG-POL-005")
    ∷ (5, "DG-POL-006")
    ∷ (6, "DG-POL-007")
    ∷ (7, "DG-POL-008")
    ∷ (8, "DG-POL-009")
    ∷ (9, "DG-POL-010")
    ∷ (10, "DG-POL-011")
    ∷ []

abbrev reserved_rule_id : List (ℕ × String) → ℕ → Option String
reserved_rule_id [] priority = none
reserved_rule_id ((p, id) ∷ rest) priority =
    if p == priority then some id else reserved_rule_id rest priority

abbrev max_safe_integer : ℕ
max_safe_integer = 9007199254740991

-- /^DG-POL-[0-9]{3}$/
abbrev has_rule_prefix : List ℕ → List ℕ → Bool
has_rule_prefix [] rest = all is_digit rest && length rest == 3
has_rule_prefix (p ∷ ps) [] = false
has_rule_prefix (p ∷ ps) (c ∷ cs) = p == c && has_rule_prefix ps cs

unfoldable pub is_rule_id : String → Bool
is_rule_id id = has_rule_prefix (codes "DG-POL-") (codes id)

abbrev keeps_precedence : Option String → String → Bool
keeps_precedence none id = true
keeps_precedence (some reserved) id = str_eq id reserved

-- validateRule. That a rule has its two functions is its type here.
unfoldable pub validate_rule : Rule → Bool
unfolding is_rule_id
validate_rule r =
    is_rule_id r.rule_id
    && leb r.priority max_safe_integer
    && keeps_precedence (reserved_rule_id reserved_precedence r.priority) r.rule_id

unfoldable pub has : List Rule → String → Bool
has rules id = any (λ r. str_eq r.rule_id id) rules

unfoldable pub register : List Rule → Rule → Registered
unfolding validate_rule has
register rules r =
    if validate_rule r
    then (if has rules r.rule_id then refused duplicate_rule_id else registered (rules ++ r ∷ []))
    else refused invalid_rule

unfoldable pub register_all : List Rule → List Rule → Registered
register_all rules [] = registered rules
register_all rules (r ∷ rs) = elim (register rules r) [
  | registered more ↦ register_all more rs
  | refused e ↦ refused e
]

-- The comparator of `list`; `before` is `<` on strings.
precedes : (String → String → Bool) → Rule → Rule → Bool
precedes before left right =
    if left.priority == right.priority
    then before left.rule_id right.rule_id
    else ltb left.priority right.priority

insert : (String → String → Bool) → Rule → List Rule → List Rule
insert before r [] = r ∷ []
insert before r (x ∷ xs) =
    let rest = insert before r xs in if precedes before r x then r ∷ x ∷ xs else x ∷ rest

-- `list`: the rules in ascending priority, a tie broken by rule id
pub list : (String → String → Bool) → List Rule → List Rule
unfolding precedes insert
list before [] = []
list before (r ∷ rs) = insert before r (list before rs)
