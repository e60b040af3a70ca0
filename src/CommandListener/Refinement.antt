-- ===== src/CommandListener/Refinement.antt =====
-- The texts of the network command against the requests of the controller.
use platform_system_netd.Prelude.{
  ℕ, ◌≡◌, refl, inl, Bool, true, false, not, Option, none, some, List, [], ◌∷◌, String, if_cases,
  ◌==◌, arith,
}
use platform_system_netd.Fwmark.{permission_none}
use platform_system_netd.Kernel.{Kernel}
use platform_system_netd.Controller.State.{System}
use platform_system_netd.Controller.Requests.{
  Request, choose_default, permit_networks, permit_users, bind_users, unbind_users, allow, deny,
}
use platform_system_netd.UidRanges.{Range}
use platform_system_netd.UidRanges.Parse.{parse_from, parse_from-IsSorted}
use platform_system_netd.CommandListener.Arguments.{
  ◌is◌, string_to_permission, string_to_net_id, read_ids, read_users,
}
use platform_system_netd.CommandListener.Meaning.{
  Permits, Means, to_set_default, to_clear_default, to_permit_users, to_permit_networks,
  to_clear_users, to_clear_networks, to_bind, to_unbind, to_allow, to_deny, MeansRoute, named,
  string_to_net_id-Names, string_to_permission-Permits,
}
use platform_system_netd.CommandListener.Obeyed.{Obeys, ObeysRoute, Means-Obeys, MeansRoute-Obeys}
use platform_system_netd.CommandListener.Networks.{
  set_default_words, run_default, permit, permit_all, run_permission, bind, run_users, run_protect,
  run_command,
}
use platform_system_netd.CommandListener.Bounds.{
  IsPermission, AreUidRanges, EachOf, string_to_permission-IsPermission,
  string_to_net_id-IsUnsigned, read_ids-EachOf, read_users-IsUnsigned,
}
use platform_system_netd.CommandListener.Outcome.{
  Refines, refused, requested, route-Refines, interface-Refines, create-Refines, destroy-Refines,
}

module _ (width : ℕ) (kernel : Kernel) where
  module _ (s : System) where
    set_words-Refines :
        (name word : String) (args : List String)
        → name ≡ "default"
        → word ≡ "set"
        → Refines width kernel (name ∷ word ∷ args) s (set_default_words width kernel args s)
    set_words-Refines name word [] e f = refused _ refl
    set_words-Refines name word (net_id ∷ args) e f =
        requested _ (choose_default (string_to_net_id width net_id))
          (to_set_default name word net_id args _ e f (string_to_net_id-Names width net_id))
          (string_to_net_id-IsUnsigned width net_id) refl

    default-Refines :
        (name : String) (args : List String)
        → name ≡ "default"
        → Refines width kernel (name ∷ args) s (run_default width kernel args s)
    unfolding run_default
    default-Refines name [] e = refused _ refl
    default-Refines name (word ∷ args) e =
        if_cases (Refines width kernel (name ∷ word ∷ args) s) (word is "set")
          (λ a. set_words-Refines name word args e (named width word "set" a))
          λ _.
            if_cases (Refines width kernel (name ∷ word ∷ args) s) (not (word is "clear"))
              (λ _. refused _ refl)
              (λ b.
                requested _ (choose_default 0)
                  (to_clear_default name word args e (named width word "clear" (ground arith)))
                  (omega arith) refl)

    permit-Refines :
        (all : List String) (whom : String) (permission : ℕ) (o : Option (List ℕ))
        → IsPermission permission
        → EachOf o
        → ((ids : List ℕ)
            → o ≡ some ids
            → (whom ≡ "user" → Means width all (permit_users permission ids))
              × (whom ≡ "network" → Means width all (permit_networks permission ids)))
        → Refines width kernel all s (permit kernel whom permission o s)
    permit-Refines all whom permission none h each means = refused _ refl
    permit-Refines all whom permission (some ids) h each means =
        if_cases (Refines width kernel all s) (whom is "user")
          (λ u.
            requested "" (permit_users permission ids)
              ((means ids refl).0 (named width whom "user" u)) (h, each) refl)
          λ _.
            if_cases (Refines width kernel all s) (whom is "network")
              (λ n.
                requested _ (permit_networks permission ids)
                  ((means ids refl).1 (named width whom "network" n)) (h, each) refl)
              (λ _. refused _ refl)

    set-Refines :
        (name whom word permission : String) (args : List String)
        → name ≡ "permission"
        → word ≡ "set"
        → Permits permission (string_to_permission permission)
        → Refines width kernel
            (name ∷ whom ∷ word ∷ permission ∷ args)
            s
            (permit_all width kernel whom (string_to_permission permission) args s)
    set-Refines name whom word permission [] e f p = refused _ refl
    set-Refines name whom word permission (arg ∷ args) e f p =
        permit-Refines _ whom (string_to_permission permission) (read_ids width (arg ∷ args))
          (string_to_permission-IsPermission permission) (read_ids-EachOf width (arg ∷ args))
          (λ ids g. (
            (λ u. to_permit_users name whom word permission arg args _ ids e u f p g),
            (λ n. to_permit_networks name whom word permission arg args _ ids e n f p g),
          ))

    permission-Refines :
        (name : String) (args : List String)
        → name ≡ "permission"
        → Refines width kernel (name ∷ args) s (run_permission width kernel args s)
    unfolding run_permission
    permission-Refines name [] e = refused _ refl
    permission-Refines name (a ∷ []) e = refused _ refl
    permission-Refines name (a ∷ b ∷ []) e = refused _ refl
    permission-Refines name (whom ∷ word ∷ arg ∷ args) e =
        if_cases (Refines width kernel (name ∷ whom ∷ word ∷ arg ∷ args) s) (word is "set")
          (λ a.
            if_cases (Refines width kernel (name ∷ whom ∷ word ∷ arg ∷ args) s)
              (string_to_permission arg == permission_none) (λ _. refused _ refl)
              (λ good.
                set-Refines name whom word arg args e (named width word "set" a)
                  (string_to_permission-Permits width arg good)))
          λ _.
            if_cases (Refines width kernel (name ∷ whom ∷ word ∷ arg ∷ args) s)
              (not (word is "clear")) (λ _. refused _ refl)
              (λ b.
                let f : word ≡ "clear" = named width word "clear" (ground arith) in
                permit-Refines _ whom permission_none (read_ids width (arg ∷ args)) (inl refl)
                  (read_ids-EachOf width (arg ∷ args))
                  (λ ids g. (
                    (λ u. to_clear_users name whom word arg args ids e u f g),
                    (λ n. to_clear_networks name whom word arg args ids e n f g),
                  )))

    bind-Refines :
        (name word net_id : String) (args : List String) (found : Bool × List Range)
        → name ≡ "users"
        → parse_from width args ≡ found
        → Refines width kernel
            (name ∷ word ∷ net_id ∷ args)
            s
            (bind kernel word (string_to_net_id width net_id) found s)
    bind-Refines name word net_id args (false, ranges) e f = refused _ refl
    bind-Refines name word net_id args (true, ranges) e f =
        let sorted : AreUidRanges ranges = parse_from-IsSorted width args ranges f in
        if_cases (Refines width kernel (name ∷ word ∷ net_id ∷ args) s) (word is "add")
          (λ a.
            requested _ (bind_users (string_to_net_id width net_id) ranges)
              (to_bind name word net_id args _ ranges e (named width word "add" a)
                (string_to_net_id-Names width net_id) f)
              (string_to_net_id-IsUnsigned width net_id, sorted) refl)
          λ _.
            if_cases (Refines width kernel (name ∷ word ∷ net_id ∷ args) s) (word is "remove")
              (λ b.
                requested _ (unbind_users (string_to_net_id width net_id) ranges)
                  (to_unbind name word net_id args _ ranges e (named width word "remove" b)
                    (string_to_net_id-Names width net_id) f)
                  (string_to_net_id-IsUnsigned width net_id, sorted) refl)
              (λ _. refused _ refl)

    users-Refines :
        (name : String) (args : List String)
        → name ≡ "users"
        → Refines width kernel (name ∷ args) s (run_users width kernel args s)
    unfolding run_users
    users-Refines name [] e = refused _ refl
    users-Refines name (a ∷ []) e = refused _ refl
    users-Refines name (word ∷ net_id ∷ args) e = bind-Refines name word net_id args _ e refl

    protect-Refines :
        (name : String) (args : List String)
        → name ≡ "protect"
        → Refines width kernel (name ∷ args) s (run_protect width args s)
    unfolding run_protect
    protect-Refines name [] e = refused _ refl
    protect-Refines name (a ∷ []) e = refused _ refl
    protect-Refines name (word ∷ arg ∷ args) e =
        let uids = read_users width (arg ∷ args) in
        let each = read_users-IsUnsigned width (arg ∷ args) in
        if_cases (Refines width kernel (name ∷ word ∷ arg ∷ args) s) (word is "allow")
          (λ a.
            requested "" (allow uids) (to_allow name word arg args e (named width word "allow" a))
              each refl)
          λ _.
            if_cases (Refines width kernel (name ∷ word ∷ arg ∷ args) s) (word is "deny")
              (λ b.
                requested "" (deny uids) (to_deny name word arg args e (named width word "deny" b))
                  each refl)
              (λ _. refused _ refl)

    words_refine :
        (args : List String) → Refines width kernel args s (run_command width kernel args s)
    unfolding run_command
    words_refine [] = refused _ refl
    words_refine (name ∷ args) =
        if_cases (Refines width kernel (name ∷ args) s) (name is "route")
          (λ n. route-Refines width kernel s name args (named width name "route" n))
          λ _.
            if_cases (Refines width kernel (name ∷ args) s) (name is "interface")
              (λ n. interface-Refines width kernel s name args (named width name "interface" n))
              λ _.
                if_cases (Refines width kernel (name ∷ args) s) (name is "create")
                  (λ n. create-Refines width kernel s name args (named width name "create" n))
                  λ _.
                    if_cases (Refines width kernel (name ∷ args) s) (name is "destroy")
                      (λ n. destroy-Refines width kernel s name args (named width name "destroy" n))
                      λ _.
                        if_cases (Refines width kernel (name ∷ args) s) (name is "default")
                          (λ n. default-Refines name args (named width name "default" n))
                          λ _.
                            if_cases (Refines width kernel (name ∷ args) s) (name is "permission")
                              (λ n. permission-Refines name args (named width name "permission" n))
                              λ _.
                                if_cases (Refines width kernel (name ∷ args) s) (name is "users")
                                  (λ n. users-Refines name args (named width name "users" n))
                                  λ _.
                                    if_cases (Refines width kernel (name ∷ args) s)
                                      (name is "protect")
                                      (λ n.
                                        protect-Refines name args (named width name "protect" n))
                                      (λ _. refused _ refl)

  -- What is done with a command is what its words mean, and what they mean is done.
  pub record IsRead (args : List String) (s : System) : Type 0 where
    pub refines : Refines width kernel args s (run_command width kernel args s)
    pub obeys : (r : Request) → Means width args r → Obeys width kernel s args r
    pub obeys_route :
        (add legacy : Bool) (uid net_id : ℕ) (interface destination : String)
        (nexthop : Option String)
        → MeansRoute width args add legacy uid net_id interface destination nexthop
        → ObeysRoute width kernel s args add legacy uid net_id interface destination nexthop

  -- A command of networks with any words either is answered with a syntax error, and changes
  -- nothing; or is one request to the controller, the one that its words mean, whose result is the
  -- answer; or adds or removes one route, the one that its words mean. Ids then have 32 bits,
  -- permissions are of the enum, and no range of users ends before it starts or reaches the
  -- invalid user. And whatever request or route the words of a command mean, its result is the
  -- answer.
  pub run_command-IsRead : (s : System) (args : List String) → IsRead args s
  run_command-IsRead s args = record {
    refines = words_refine s args;
    obeys = Means-Obeys width kernel s args;
    obeys_route = MeansRoute-Obeys width kernel s args;
  }
