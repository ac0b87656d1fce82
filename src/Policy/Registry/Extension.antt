-- ===== src/Policy/Registry/Extension.antt =====
-- Rules registered after the default ones.
use drive_guard.Prelude.{
  leb, All-append, All-map, ◌<◌, ℕ, ◌≤◌, ◌<◌, String, ◌≡◌, refl, ◌∙◌, Bool, true, inl, inr, List,
  [], ◌∷◌, ◌++◌, arith, eq_iff, All, Option-cases, Bool-cases, some,
}
use mathlib.Core.List.{append_assoc, append-nil}
use drive_guard.Policy.{Rule, RuleInput}
use drive_guard.Policy.Rules.{default_policy_rules, run_rules}
use drive_guard.Policy.Registry.{
  Registered, registered, refused, register, register_all, has, validate_rule, precedes, insert,
  list, reserved_rule_id, reserved_precedence,
}

abbrev IsExtra : Rule → Type 0
IsExtra r = 11 ≤ r.priority

reserved_has :
    (reserved : List (ℕ × String)) (rules : List Rule) (priority : ℕ) (id : String)
    → All (λ e. has rules e.1 ≡ true) reserved
    → reserved_rule_id reserved priority ≡ some id
    → has rules id ≡ true
reserved_has [] rules priority id h e = cc
reserved_has ((p, i) ∷ rest) rules priority id h e =
    ground (arith, reserved_has rest rules priority id h.1)

reserved_total :
    (priority : ℕ)
    → priority ≤ 10
    → (id : String) × (reserved_rule_id reserved_precedence priority ≡ some id)
reserved_total priority h = elim (Option-cases (reserved_rule_id reserved_precedence priority)) [
  | inl e ↦ absurd (ground arith)
  | inr found ↦ found
]

-- A reserved priority is open only to the rule id that the defaults have taken.
reserved_taken :
    (r : Rule) (extra : List Rule)
    → r.priority ≤ 10
    → validate_rule r ≡ true
    → has (default_policy_rules ++ extra) r.rule_id ≡ true
unfolding validate_rule
reserved_taken r extra h v =
    let (id, e) = reserved_total r.priority h in
    let named : r.rule_id ≡ id = ground (arith, eq_iff r.rule_id id) in
    rw named (
      reserved_has reserved_precedence (default_policy_rules ++ extra) r.priority id
        (unfold has default_policy_rules in
          (
            refl,
            (refl, (refl, (refl, (refl, (refl, (refl, (refl, (refl, (refl, (refl, tt)))))))))),
          ))
        e)

register_all_step :
    (before : List Rule) (r : Rule) (rs rules : List Rule)
    → register_all before (r ∷ rs) ≡ registered rules
    → (next : List Rule) × (register before r ≡ registered next)
      × (register_all next rs ≡ registered rules)
unfolding register_all
register_all_step before r rs rules h = go (register before r) refl
  where
    go :
        (o : Registered)
        → register before r ≡ o
        → (next : List Rule) × (register before r ≡ registered next)
          × (register_all next rs ≡ registered rules)
    go (registered next) e = (next, e, rw (e, register_all) at h)
    go (refused x) e = absurd (cc (rw (e, register_all) at h))

register-IsExtra :
    (extra rules : List Rule) (r : Rule)
    → register (default_policy_rules ++ extra) r ≡ registered rules
    → IsExtra r × (rules ≡ (default_policy_rules ++ extra) ++ r ∷ [])
unfolding register
register-IsExtra extra rules r h = elim (Bool-cases (leb r.priority 10)) [
  | inl low ↦ absurd (ground (arith, reserved_taken r extra))
  | inr high ↦ (ground arith, ground arith)
]

-- A registry that starts from the default rules holds them first, then rules of priority 11 and up.
register_all-IsExtra :
    (rs extra rules : List Rule)
    → All IsExtra extra
    → register_all (default_policy_rules ++ extra) rs ≡ registered rules
    → (more : List Rule) × (rules ≡ default_policy_rules ++ more) × All IsExtra more
unfolding register_all
register_all-IsExtra [] extra rules x h = (extra, cc, x)
register_all-IsExtra (r ∷ rs) extra rules x h =
    let (next, e, rest) = register_all_step (default_policy_rules ++ extra) r rs rules h in
    let (high, grown) = register-IsExtra extra next r e in
    register_all-IsExtra rs (extra ++ r ∷ []) rules (All-append IsExtra extra (r ∷ []) x (high, tt))
      (rw (grown ∙ append_assoc default_policy_rules extra (r ∷ [])) at rest)

-- Reserved priorities in strictly ascending order.
abbrev Ascends : List Rule → Type 0
Ascends [] = Unit
Ascends (r ∷ rs) = (r.priority ≤ 10) × All (λ q. r.priority < q.priority) rs × Ascends rs

default-Ascends : Ascends default_policy_rules
unfolding default_policy_rules
default-Ascends = omega arith

module _ (before : String → String → Bool) where
  insert-IsExtra :
      (r : Rule) (rs : List Rule) → IsExtra r → All IsExtra rs → All IsExtra (insert before r rs)
  unfolding insert
  insert-IsExtra r [] h x = (h, tt)
  insert-IsExtra r (y ∷ ys) h x = ground (arith, insert-IsExtra r ys h x.1)

  list-IsExtra : (rs : List Rule) → All IsExtra rs → All IsExtra (list before rs)
  unfolding list
  list-IsExtra [] x = tt
  list-IsExtra (r ∷ rs) x = insert-IsExtra r (list before rs) x.0 (list-IsExtra rs x.1)

  insert_first :
      (r : Rule) (rs : List Rule)
      → All (λ q. r.priority < q.priority) rs
      → insert before r rs ≡ r ∷ rs
  unfolding insert precedes
  insert_first r [] x = refl
  insert_first r (y ∷ ys) x = ground arith

  list_sorted_first :
      (rs extra : List Rule)
      → Ascends rs
      → All IsExtra extra
      → list before (rs ++ extra) ≡ rs ++ list before extra
  unfolding list
  list_sorted_first [] extra h x = refl
  list_sorted_first (r ∷ rs) extra h x = rw (list_sorted_first rs extra h.2 x) (
      insert_first r (rs ++ list before extra) (
        All-append (λ q. r.priority < q.priority) rs (list before extra) h.1
          (All-map IsExtra (λ q. r.priority < q.priority) (list before extra) (λ q e. omega arith)
            (list-IsExtra extra x))))

-- The last default rule applies to everything, so rules after it are never read.
run_rules-defaults :
    (rs : List Rule) (i : RuleInput)
    → run_rules (default_policy_rules ++ rs) i ≡ run_rules default_policy_rules i
unfolding run_rules default_policy_rules
run_rules-defaults rs i = refl

-- Whatever rules a registry accepts after the default ones, in whatever order, the decision, its
-- rule id and its reason are those of the default rules.
pub extension_is_inert :
    (before : String → String → Bool) (extra rules : List Rule) (i : RuleInput)
    → register_all default_policy_rules extra ≡ registered rules
    → run_rules (list before rules) i ≡ run_rules default_policy_rules i
extension_is_inert before extra rules i h =
    let (more, e, x) =
      register_all-IsExtra extra [] rules tt (rw (append-nil default_policy_rules) h) in
    rw (e, list_sorted_first before default_policy_rules more default-Ascends x)
      (run_rules-defaults (list before more) i)
