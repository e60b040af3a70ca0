-- ===== src/Route/Installed.antt =====
-- The rules that a history of requests leaves with the kernel, if it did what it was asked: a rule
-- is in force from a request that adds it until one that deletes it.
use platform_system_netd.Prelude.{
  ◌≡◌, ◌≢◌, sym, ap, subst, ◌∙◌, List, [], ◌∷◌, ◌++◌, append_assoc, All,
}
use platform_system_netd.Kernel.{Action, new, del, Family, inet, inet6, Rule, Call, ip_rule}

abbrev pub reverse_action : Action → Action
reverse_action new = del
reverse_action del = new

-- The last request about the rule, for a family, is the action given.
pub record Last (action : Action) (family : Family) (rule : Rule) (calls : List Call) : Type 0 where
  pub before : List Call
  pub after : List Call
  pub split : calls ≡ before ++ ip_rule action family rule ∷ after
  pub quiet : All (λ c. c ≢ ip_rule (reverse_action action) family rule) after

abbrev pub InForce : Family → Rule → List Call → Type 0
InForce = Last new

abbrev pub Withdrawn : Family → Rule → List Call → Type 0
Withdrawn = Last del

-- A call that adds no rule and deletes none, or does the same action.
abbrev pub Spares : Action → Call → Type 0
Spares action c = (family : Family) (rule : Rule) → c ≢ ip_rule (reverse_action action) family rule

module _ (P : Call → Type 0) where
  pub All-append : (xs ys : List Call) → All P xs → All P ys → All P (xs ++ ys)
  All-append [] ys h k = k
  All-append (x ∷ xs) ys h k = (h.0, All-append xs ys h.1 k)

quiet_of_Spares :
    (action : Action) (family : Family) (rule : Rule) (xs : List Call)
    → All (Spares action) xs
    → All (λ c. c ≢ ip_rule (reverse_action action) family rule) xs
quiet_of_Spares action family rule [] h = tt
quiet_of_Spares action family rule (x ∷ xs) h =
    (h.0 family rule, quiet_of_Spares action family rule xs h.1)

module _ (action : Action) (family : Family) (rule : Rule) where
  pub Last-append :
      (calls more : List Call)
      → Last action family rule calls
      → All (λ c. c ≢ ip_rule (reverse_action action) family rule) more
      → Last action family rule (calls ++ more)
  Last-append calls more l h = record {
    before = l.before;
    after = l.after ++ more;
    split = ap (λ c. c ++ more) l.split ∙ append_assoc l.before _ more;
    quiet =
        All-append (λ c. c ≢ ip_rule (reverse_action action) family rule) l.after more l.quiet h;
  }

  pub Last-Spares :
      (calls more : List Call)
      → Last action family rule calls
      → All (Spares action) more
      → Last action family rule (calls ++ more)
  Last-Spares calls more l h = Last-append calls more l (quiet_of_Spares action family rule more h)

  -- The request itself stands in the calls that are appended.
  pub Last-requested :
      (calls before after : List Call)
      → All (Spares action) after
      → Last action family rule (calls ++ (before ++ ip_rule action family rule ∷ after))
  Last-requested calls before after h = record {
    before = calls ++ before;
    after = after;
    split = sym (append_assoc calls before _);
    quiet = quiet_of_Spares action family rule after h;
  }

-- The requests of a list of rules, for both families.
abbrev pub request_calls : Action → List Rule → List Call
request_calls action [] = []
request_calls action (rule ∷ rules) =
    ip_rule action inet rule ∷ ip_rule action inet6 rule ∷ request_calls action rules

abbrev pub AllLast : Action → List Rule → List Call → Type 0
AllLast action rules calls = All (λ rule. (family : Family) → Last action family rule calls) rules

ip_rule-Spares :
    (action : Action) (family : Family) (rule : Rule) → Spares action (ip_rule action family rule)
ip_rule-Spares new family rule f r e = cc
ip_rule-Spares del family rule f r e = cc

pub request_calls-Spares :
    (action : Action) (rules : List Rule) → All (Spares action) (request_calls action rules)
request_calls-Spares action [] = tt
request_calls-Spares action (rule ∷ rules) = (
  ip_rule-Spares action inet rule,
  (ip_rule-Spares action inet6 rule, request_calls-Spares action rules),
)

pub AllLast-Spares :
    (action : Action) (rules : List Rule) (calls more : List Call)
    → AllLast action rules calls
    → All (Spares action) more
    → AllLast action rules (calls ++ more)
AllLast-Spares action [] calls more h k = tt
AllLast-Spares action (rule ∷ rules) calls more h k = (
  (λ family. Last-Spares action family rule calls more (h.0 family) k),
  AllLast-Spares action rules calls more h.1 k,
)

pub AllLast-request_calls :
    (action : Action) (rules : List Rule) (calls : List Call)
    → AllLast action rules (calls ++ request_calls action rules)
AllLast-request_calls action [] calls = tt
AllLast-request_calls action (rule ∷ rules) calls = (
  here,
  subst (AllLast action rules)
      (append_assoc calls (ip_rule action inet rule ∷ ip_rule action inet6 rule ∷ []) _)
      (AllLast-request_calls action rules _),
)
  where
    here :
        (family : Family) → Last action family rule (calls ++ request_calls action (rule ∷ rules))
    here inet =
        Last-requested action inet rule calls [] _
          (ip_rule-Spares action inet6 rule, request_calls-Spares action rules)
    here inet6 =
        Last-requested action inet6 rule calls (ip_rule action inet rule ∷ []) _
          (request_calls-Spares action rules)
