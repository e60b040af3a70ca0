-- ===== src/FirewallController/Chains.antt =====
-- What the commands of server/FirewallController.cpp leave in its chains.
use platform_system_netd.Prelude.{
  ◌≡◌, refl, sym, subst, Bool, true, false, ◌&&◌, List, [], ◌∷◌, ◌++◌, String, str_eq,
  if◌then◌else◌, ◌==◌,
}
use platform_system_netd.Kernel.{Kernel, World, Call, command, Word, text, hex, decimal, minus}
use platform_system_netd.Iptables.{
  IptablesTarget, v4, v6, v4v6, exec_iptables, exec_if, exec_iptables_command, iptables_path,
  ip6tables_path,
}
use platform_system_netd.FirewallController.{local_input, local_output, local_forward, jump}

abbrev pub Rule : Type 0
Rule = List Word

abbrev pub same_word : Word → Word → Bool
same_word (text s) (text t) = str_eq s t
same_word (hex m) (hex n) = m == n
same_word (decimal m) (decimal n) = m == n
same_word (minus m) (minus n) = m == n
same_word v w = false

unfoldable pub same_rule : Rule → Rule → Bool
same_rule [] [] = true
same_rule (v ∷ a) (w ∷ b) = same_word v w && same_rule a b
same_rule a b = false

-- `-D` takes the first rule out that is the same.
unfoldable pub erase_rule : Rule → List Rule → List Rule
erase_rule r [] = []
erase_rule r (q ∷ rules) =
    let rest = erase_rule r rules in if same_rule r q then rules else q ∷ rest

abbrev pub edit : String → Rule → List Rule → List Rule
edit op r rules =
    if str_eq op "-I"
    then r ∷ rules
    else if str_eq op "-D"
    then erase_rule r rules
    else if str_eq op "-A"
    then rules ++ r ∷ []
    else if str_eq op "-F"
    then []
    else rules

-- A command of iptables, as it changes a chain of one of the two programs if it works.
abbrev pub step : String → String → Call → List Rule → List Rule
step path chain (command (text p ∷ text wait ∷ text op ∷ text c ∷ r)) rules =
    if str_eq p path && str_eq c chain then edit op r rules else rules
step path chain call rules = rules

unfoldable pub after : String → String → List Call → List Rule → List Rule
after path chain [] rules = rules
after path chain (call ∷ calls) rules = after path chain calls (step path chain call rules)

-- The rules of a chain after all commands so far, if they worked.
abbrev pub rules_of : String → String → World → List Rule
rules_of path chain w = after path chain w.calls []

abbrev pub EndsWith : Rule → List Rule → Type 0
EndsWith d rules = (before : List Rule) × (rules ≡ before ++ d ∷ [])

-- All chains of a program end with a rule that drops what comes to it.
pub record Drops (path : String) (w : World) : Type 0 where
  pub input : EndsWith (jump "DROP") (rules_of path local_input w)
  pub output : EndsWith (jump "REJECT") (rules_of path local_output w)
  pub forward : EndsWith (jump "REJECT") (rules_of path local_forward w)

module _ (path chain : String) where
  pub after-snoc :
      (calls : List Call) (call : Call) (rules : List Rule)
      → after path chain (calls ++ call ∷ []) rules
        ≡ step path chain call (after path chain calls rules)
  unfolding after
  after-snoc [] call rules = refl
  after-snoc (c ∷ calls) call rules = after-snoc calls call (step path chain c rules)

  module _ (kernel : Kernel) (P : List Rule → Type 0) (args : List Word)
      (keeps : (p : String) (rules : List Rule)
        → P rules
        → P (step path chain (command (text p ∷ args)) rules)) where
    ran_keeps :
        (p : String) (w : World)
        → P (rules_of path chain w)
        → P (rules_of path chain (exec_iptables_command kernel (text p ∷ args) w).1)
    unfolding exec_iptables_command
    ran_keeps p w h =
        subst P (sym (after-snoc w.calls (command (text p ∷ args)) []))
          (keeps p (rules_of path chain w) h)

    pub exec_keeps :
        (target : IptablesTarget) (w : World)
        → P (rules_of path chain w)
        → P (rules_of path chain (exec_iptables kernel target args w).1)
    unfolding exec_iptables exec_if
    exec_keeps v4 w h = ran_keeps iptables_path w h
    exec_keeps v6 w h = ran_keeps ip6tables_path w h
    exec_keeps v4v6 w h =
        ran_keeps ip6tables_path (exec_iptables_command kernel (text iptables_path ∷ args) w).1
          (ran_keeps iptables_path w h)
