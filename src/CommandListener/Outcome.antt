-- ===== src/CommandListener/Outcome.antt =====
-- What a network command comes to, and so for routes, interfaces, and networks created or destroyed.
use platform_system_netd.Prelude.{
  ℕ, ◌+◌, ◌≡◌, refl, inl, Bool, true, false, not, ◌||◌, Option, none, some, List, [], ◌∷◌, String,
  ltb, if_cases, ◌==◌, arith,
}
use platform_system_netd.Fwmark.{permission_none}
use platform_system_netd.Kernel.{Kernel}
use platform_system_netd.Controller.State.{System, exec}
use platform_system_netd.Controller.Requests.{
  Request, create_physical, create_virtual, destroy, attach, detach, handle,
}
use platform_system_netd.Controller.Routes.{modify_network_route}
use platform_system_netd.CommandListener.{Answer, command_syntax_error, report}
use platform_system_netd.CommandListener.Arguments.{
  ◌is◌, string_to_permission, string_to_net_id, unsigned_of, atoi_is_set,
}
use platform_system_netd.CommandListener.Meaning.{
  Means, to_attach, to_detach, to_create, to_create_with, to_create_vpn, to_destroy, Acts, to_add,
  to_remove, IsRoute, direct, over, MeansRoute, of_no_user, of_user, named, string_to_net_id-Names,
  string_to_permission-Permits,
}
use platform_system_netd.CommandListener.Networks.{
  argc, route_words, route_action_word, route_legacy, run_route, run_interface, run_create,
  run_destroy,
}
use platform_system_netd.CommandListener.Bounds.{
  IsUnsigned, IsChecked, string_to_permission-IsPermission, unsigned_of-IsUnsigned,
  string_to_net_id-IsUnsigned,
}

module _ (width : ℕ) (kernel : Kernel) where
  -- What a command comes to: a refusal that changes nothing, one request, or one route.
  pub data Refines (args : List String) (s : System) (out : Answer × System) : Type 0 where
    refused : (message : String) → out ≡ (command_syntax_error message, s) → Refines args s out
    requested :
        (message : String) (r : Request)
        → Means width args r
        → IsChecked r
        → out ≡ report message (handle kernel r s)
        → Refines args s out
    routed :
        (message : String) (add legacy : Bool) (uid net_id : ℕ) (interface destination : String)
        (nexthop : Option String)
        → MeansRoute width args add legacy uid net_id interface destination nexthop
        → IsUnsigned uid × IsUnsigned net_id
        → out
          ≡ report message (
              exec
                (modify_network_route kernel width s.controller net_id interface
                  (some destination)
                  nexthop
                  add
                  legacy
                  uid)
                s)
        → Refines args s out

  module _ (s : System) where
    words-Refines :
        (all : List String) (word : String) (add legacy : Bool) (uid : ℕ) (args : List String)
        → IsUnsigned uid
        → ((id : ℕ) (interface destination : String) (nexthop : Option String)
            → IsRoute width (word ∷ args) add id interface destination nexthop
            → MeansRoute width all add legacy uid id interface destination nexthop)
        → Acts width word add
        → Refines all s (route_words width kernel add legacy uid args s)
    words-Refines all word add legacy uid (net_id ∷ interface ∷ destination ∷ []) h means acts =
        routed _ add legacy uid (string_to_net_id width net_id) interface destination none
          (means _ _ _ _ (
            direct word net_id interface destination add _ acts
              (string_to_net_id-Names width net_id)))
          (h, string_to_net_id-IsUnsigned width net_id) refl
    words-Refines all word add legacy uid (net_id ∷ interface ∷ destination ∷ nexthop ∷ []) h means
          acts =
        routed _ add legacy uid (string_to_net_id width net_id) interface destination (some nexthop)
          (means _ _ _ _ (
            over word net_id interface destination nexthop add _ acts
              (string_to_net_id-Names width net_id)))
          (h, string_to_net_id-IsUnsigned width net_id) refl
    words-Refines all word add legacy uid [] h means acts = refused _ refl
    words-Refines all word add legacy uid (a ∷ []) h means acts = refused _ refl
    words-Refines all word add legacy uid (a ∷ b ∷ []) h means acts = refused _ refl
    words-Refines all word add legacy uid (a ∷ b ∷ c ∷ d ∷ e ∷ args) h means acts = refused _ refl

    action-Refines :
        (all : List String) (legacy : Bool) (uid : ℕ) (args : List String)
        → IsUnsigned uid
        → ((add : Bool) (id : ℕ) (interface destination : String) (nexthop : Option String)
            → IsRoute width args add id interface destination nexthop
            → MeansRoute width all add legacy uid id interface destination nexthop)
        → Refines all s (route_action_word width kernel legacy uid args s)
    action-Refines all legacy uid [] h means = refused _ refl
    action-Refines all legacy uid (word ∷ args) h means =
        if_cases (Refines all s) (word is "add")
          (λ a.
            words-Refines all word true legacy uid args h (means true)
              (to_add (named width word "add" a)))
          λ _.
            if_cases (Refines all s) (not (word is "remove")) (λ _. refused _ refl)
              (λ b.
                words-Refines all word false legacy uid args h (means false)
                  (to_remove (named width word "remove" (ground arith))))

    legacy-Refines :
        (name : String) (args : List String)
        → name ≡ "route"
        → Refines (name ∷ args) s (route_legacy width kernel args s)
    legacy-Refines name [] e = refused _ refl
    legacy-Refines name (word ∷ []) e = refused _ refl
    legacy-Refines name (word ∷ uid ∷ args) e =
        if_cases (Refines (name ∷ word ∷ uid ∷ args) s) (word is "legacy")
          (λ l.
            action-Refines _ true (unsigned_of width uid) args (unsigned_of-IsUnsigned width uid)
              (λ add id i d n r.
                of_user name word uid args add id i d n e (named width word "legacy" l) r))
          (λ _.
            action-Refines _ false 0 (word ∷ uid ∷ args) (omega arith)
              (λ add id i d n r. of_no_user name _ add id i d n e r))

    pub route-Refines :
        (name : String) (args : List String)
        → name ≡ "route"
        → Refines (name ∷ args) s (run_route width kernel args s)
    unfolding run_route
    route-Refines name args e =
        if_cases (Refines (name ∷ args) s) (ltb (argc args + 1) 6 || ltb 9 (argc args + 1))
          (λ _. refused _ refl) (λ _. legacy-Refines name args e)

    pub interface-Refines :
        (name : String) (args : List String)
        → name ≡ "interface"
        → Refines (name ∷ args) s (run_interface width kernel args s)
    unfolding run_interface
    interface-Refines name (word ∷ net_id ∷ interface ∷ []) e =
        if_cases (Refines (name ∷ word ∷ net_id ∷ interface ∷ []) s) (word is "add")
          (λ a.
            requested _ (attach (string_to_net_id width net_id) interface)
              (to_attach name word net_id interface _ e (named width word "add" a)
                (string_to_net_id-Names width net_id))
              (string_to_net_id-IsUnsigned width net_id) refl)
          λ _.
            if_cases (Refines (name ∷ word ∷ net_id ∷ interface ∷ []) s) (word is "remove")
              (λ b.
                requested _ (detach (string_to_net_id width net_id) interface)
                  (to_detach name word net_id interface _ e (named width word "remove" b)
                    (string_to_net_id-Names width net_id))
                  (string_to_net_id-IsUnsigned width net_id) refl)
              (λ _. refused _ refl)
    interface-Refines name [] e = refused _ refl
    interface-Refines name (a ∷ []) e = refused _ refl
    interface-Refines name (a ∷ b ∷ []) e = refused _ refl
    interface-Refines name (a ∷ b ∷ c ∷ d ∷ args) e = refused _ refl

    pub create-Refines :
        (name : String) (args : List String)
        → name ≡ "create"
        → Refines (name ∷ args) s (run_create width kernel args s)
    unfolding run_create
    create-Refines name [] e = refused _ refl
    create-Refines name (net_id ∷ []) e =
        requested _ (create_physical (string_to_net_id width net_id) permission_none)
          (to_create name net_id _ e (string_to_net_id-Names width net_id))
          (string_to_net_id-IsUnsigned width net_id, inl refl) refl
    create-Refines name (net_id ∷ permission ∷ []) e =
        if_cases (Refines (name ∷ net_id ∷ permission ∷ []) s)
          (string_to_permission permission == permission_none) (λ _. refused _ refl)
          (λ good.
            requested _
              (create_physical (string_to_net_id width net_id) (string_to_permission permission))
              (to_create_with name net_id permission _ _ e (string_to_net_id-Names width net_id)
                (string_to_permission-Permits width permission good))
              (
                string_to_net_id-IsUnsigned width net_id,
                string_to_permission-IsPermission permission,
              )
              refl)
    create-Refines name (a ∷ b ∷ c ∷ []) e = refused _ refl
    create-Refines name (net_id ∷ vpn ∷ has_dns ∷ secure ∷ []) e =
        if_cases (Refines (name ∷ net_id ∷ vpn ∷ has_dns ∷ secure ∷ []) s) (vpn is "vpn")
          (λ v.
            requested _
              (create_virtual (string_to_net_id width net_id) (atoi_is_set width has_dns)
                (atoi_is_set width secure))
              (to_create_vpn name net_id vpn has_dns secure _ e (named width vpn "vpn" v)
                (string_to_net_id-Names width net_id))
              (string_to_net_id-IsUnsigned width net_id) refl)
          (λ _. refused _ refl)
    create-Refines name (a ∷ b ∷ c ∷ d ∷ f ∷ args) e = refused _ refl

    pub destroy-Refines :
        (name : String) (args : List String)
        → name ≡ "destroy"
        → Refines (name ∷ args) s (run_destroy width kernel args s)
    unfolding run_destroy
    destroy-Refines name [] e = refused _ refl
    destroy-Refines name (net_id ∷ []) e =
        requested _ (destroy (string_to_net_id width net_id))
          (to_destroy name net_id _ e (string_to_net_id-Names width net_id))
          (string_to_net_id-IsUnsigned width net_id) refl
    destroy-Refines name (a ∷ b ∷ args) e = refused _ refl
