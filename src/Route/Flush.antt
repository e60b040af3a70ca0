-- ===== src/Route/Flush.antt =====
-- Flushing a routing table: the attempts, what is reported, and what the cache keeps.
use platform_system_netd.Prelude.{
  ℕ, zero, suc, ◌≤◌, ◌≡◌, ◌≢◌, ◌⊎◌, inl, inr, refl, sym, ap, ◌∙◌, Bool-cases, List, [], ◌∷◌, ◌++◌,
  append_assoc, All, String, ◌==◌, ◌&&◌, false, replicate, append-nil, ==_iff, ◌<◌, arith, none,
  if◌then◌else◌, str_eq,
}
use platform_system_netd.Containers.{string_key, lookup, lookup-unassign}
use platform_system_netd.Kernel.{
  Kernel, Action, inet, inet6, Call, command, Word, World, Result, ok, err, ◌>>=◌, continue,
  record_call,
}
use platform_system_netd.Route.Networks.{
  run, retry, flush_table, forget_if_flushed, flush_routes, flush_routes_command,
}
use platform_system_netd.Route.Tables.{get_route_table_for_interface, require_table, found_or_esrch}
use platform_system_netd.Route.Lookups.{table_of, looked_up, calls-looked_up}
use platform_system_netd.Kernel.Errno.{eremoteio, esrch}
use platform_system_netd.Route.Installed.{Spares, All-append}

module _ (kernel : Kernel) (c : Call) where
  -- The answer to one more attempt after `k` of them.
  abbrev attempt : List Call → ℕ → ℕ
  attempt calls k = (kernel.execvp (calls ++ replicate k c) c).res

  -- What a run of attempts did: `k` that failed, and a last one, which worked or was the last
  -- that is allowed.
  pub record Attempts (more : ℕ) (calls : List Call) (out : ℕ × World) : Type 0 where
    pub k : ℕ
    pub few : k ≤ more
    pub failures : (j : ℕ) → j < k → attempt calls j ≢ 0
    pub answer : out.0 ≡ attempt calls k
    pub recorded : out.1.calls ≡ calls ++ replicate (suc k) c
    pub settled : (out.0 ≡ 0) ⊎ (k ≡ more)

  attempt-zero : (calls : List Call) → attempt calls 0 ≡ (kernel.execvp calls c).res
  attempt-zero calls = ap (λ past. (kernel.execvp past c).res) (append-nil calls)

  attempt-suc : (calls : List Call) (j : ℕ) → attempt (calls ++ c ∷ []) j ≡ attempt calls (suc j)
  attempt-suc calls j =
      ap (λ past. (kernel.execvp past c).res) (append_assoc calls (c ∷ []) (replicate j c))

  again-Attempts :
      (more : ℕ) (calls : List Call) (out : ℕ × World)
      → attempt calls 0 ≢ 0
      → Attempts more (calls ++ c ∷ []) out
      → Attempts (suc more) calls out
  again-Attempts more calls out failed t = record {
    k = suc t.k;
    few = omega (arith, t.few);
    failures = earlier;
    answer = t.answer ∙ attempt-suc calls t.k;
    recorded = t.recorded ∙ append_assoc calls (c ∷ []) _;
    settled = ground (arith, t.settled);
  }
    where
      earlier : (j : ℕ) → j < suc t.k → attempt calls j ≢ 0
      earlier zero h = failed
      earlier (suc j) h = λ e. t.failures j (omega arith) (attempt-suc calls j ∙ e)

  -- The loop of flushRoutes stops at the first success, and after the last attempt that is
  -- allowed: every attempt before the last one failed, and all of them are the same command.
  pub retry-Attempts : (more : ℕ) (w : World) → Attempts more w.calls (retry kernel more c w)
  unfolding retry run
  retry-Attempts zero w = record {
    k = 0;
    few = omega arith;
    failures = λ j h. absurd (omega arith);
    answer = sym (attempt-zero w.calls);
    recorded = refl;
    settled = inr refl;
  }
  retry-Attempts (suc more) w = elim (Bool-cases ((kernel.execvp w.calls c).res == 0)) [
    | inl done ↦ rw done (record {
      k = 0;
      few = omega arith;
      failures = λ j h. absurd (omega arith);
      answer = sym (attempt-zero w.calls);
      recorded = refl;
      settled = inl ((==_iff _ 0).0 done);
    })
    | inr failed ↦ rw failed (
        again-Attempts more w.calls _ (λ e. ground (arith, attempt-zero w.calls))
          (retry-Attempts more (record_call c w)))
  ]

  pub cache-retry :
      (more : ℕ) (w : World) → (retry kernel more c w).1.interface_to_table ≡ w.interface_to_table
  unfolding retry run
  cache-retry zero w = refl
  cache-retry (suc more) w = ground (arith, cache-retry more (record_call c w))

command-replicate-Spares :
    (action : Action) (words : List Word) (n : ℕ)
    → All (Spares action) (replicate n (command words))
command-replicate-Spares action words zero = tt
command-replicate-Spares action words (suc n) =
    ((λ family rule e. cc), command-replicate-Spares action words n)

-- The calls of an action, after those before it, add no rule and delete none.
pub record IsQuiet (w w' : World) : Type 0 where
  pub more : List Call
  pub recorded : w'.calls ≡ w.calls ++ more
  pub spares : (action : Action) → All (Spares action) more

pub IsQuiet-trans : (u v w : World) → IsQuiet u v → IsQuiet v w → IsQuiet u w
IsQuiet-trans u v w p q = record {
  more = p.more ++ q.more;
  recorded = q.recorded ∙ ap (λ c. c ++ q.more) p.recorded ∙ append_assoc u.calls p.more q.more;
  spares = λ action. All-append (Spares action) p.more q.more (p.spares action) (q.spares action);
}

module _ (kernel : Kernel) where
  retry-IsQuiet :
      (more : ℕ) (words : List Word) (w : World) → IsQuiet w (retry kernel more (command words) w).1
  retry-IsQuiet more words w =
      let t = retry-Attempts kernel (command words) more w in
      record {
        more = replicate (suc t.k) (command words);
        recorded = t.recorded;
        spares = λ action. command-replicate-Spares action words (suc t.k);
      }

  flush_table-IsQuiet : (table : ℕ) (w : World) → IsQuiet w (flush_table kernel table w).1
  unfolding flush_table
  flush_table-IsQuiet table w = IsQuiet-trans _ _ _ (retry-IsQuiet 1 _ w) (retry-IsQuiet 1 _ _)

  cache-flush_table :
      (table : ℕ) (w : World)
      → (flush_table kernel table w).1.interface_to_table ≡ w.interface_to_table
  unfolding flush_table
  cache-flush_table table w =
      cache-retry kernel (flush_routes_command inet6 table) 1 _
      ∙ cache-retry kernel (flush_routes_command inet table) 1 w

  forget-IsQuiet :
      (interface : String) (w : World) (out : ℕ × World)
      → IsQuiet w out.1
      → IsQuiet w (forget_if_flushed interface out).1
  unfolding forget_if_flushed
  forget-IsQuiet interface w (ret, w') q = elim (Bool-cases (ret == 0)) [
    | inl done ↦ rw done (record { more = q.more; recorded = q.recorded; spares = q.spares })
    | inr failed ↦ rw failed q
  ]

  found-IsQuiet :
      (interface : String) (found : ℕ × World)
      → IsQuiet found.1
          (continue
            (λ table w. forget_if_flushed interface (flush_table kernel table w))
            (found_or_esrch found)).1
  found-IsQuiet interface (table, w) = elim (Bool-cases (table == 0)) [
    | inl missing ↦
        rw missing
          (record { more = []; recorded = sym (append-nil w.calls); spares = λ action. tt })
    | inr there ↦ rw there (forget-IsQuiet interface w _ (flush_table-IsQuiet table w))
  ]

  pub flush_routes-IsQuiet :
      (interface : String) (w : World) → IsQuiet w (flush_routes kernel interface w).1
  unfolding flush_routes ◌>>=◌ require_table
  flush_routes-IsQuiet interface w =
      let q = found-IsQuiet interface (get_route_table_for_interface kernel interface w) in
      record {
        more = q.more;
        recorded = q.recorded ∙ ap (λ c. c ++ q.more) (calls-looked_up kernel interface w);
        spares = q.spares;
      }

  not_both : (m n : ℕ) → (m ≢ 0) ⊎ (n ≢ 0) → (m == 0 && n == 0) ≡ false
  not_both m n h = ground arith

  -- What flushing a table did: at most two attempts for each family, and a success only if both
  -- families were flushed, which then forgets this interface and no other; else the cache stays.
  pub record Flushed (interface : String) (table : ℕ) (w : World) (out : Result (Unit {0}) × World)
      : Type 0 where
    pub first : ℕ × World
    pub second : ℕ × World
    pub v4 : Attempts kernel (flush_routes_command inet table) 1 w.calls first
    pub v6 : Attempts kernel (flush_routes_command inet6 table) 1 first.1.calls second
    pub recorded : out.1.calls ≡ second.1.calls
    pub works :
        first.0 ≡ 0
        → second.0 ≡ 0
        → (out.0 ≡ ok tt)
          × ((j : String)
              → lookup j out.1.interface_to_table
                ≡ (if str_eq interface j then none else lookup j w.interface_to_table))
    pub fails :
        (first.0 ≢ 0) ⊎ (second.0 ≢ 0)
        → (out.0 ≡ err eremoteio) × (out.1.interface_to_table ≡ w.interface_to_table)

  flush_table-Flushed :
      (interface : String) (table : ℕ) (w : World)
      → Flushed interface table w (forget_if_flushed interface (flush_table kernel table w))
  unfolding flush_table forget_if_flushed
  flush_table-Flushed interface table w =
      let first : ℕ × World = retry kernel 1 (flush_routes_command inet table) w in
      let second : ℕ × World = retry kernel 1 (flush_routes_command inet6 table) first.1 in
      let same : second.1.interface_to_table ≡ w.interface_to_table = cache-flush_table table w in
      record {
        first = first;
        second = second;
        v4 = retry-Attempts kernel (flush_routes_command inet table) 1 w;
        v6 = retry-Attempts kernel (flush_routes_command inet6 table) 1 first.1;
        recorded = ground arith;
        works = λ a b. rw (a, b) (refl, λ j. rw (lookup-unassign, same) refl);
        fails = λ one. rw (not_both first.0 second.0 one) (refl, same);
      }

  found-Flushed :
      (interface : String) (found : ℕ × World)
      → let out : Result (Unit {0}) × World =
          continue
            (λ table w. forget_if_flushed interface (flush_table kernel table w))
            (found_or_esrch found) in
        ((found.0 ≡ 0) × (out ≡ (err esrch, found.1)))
        ⊎ ((found.0 ≢ 0) × Flushed interface found.0 found.1 out)
  found-Flushed interface (table, w) = elim (Bool-cases (table == 0)) [
    | inl missing ↦ inl ((==_iff table 0).0 missing, rw missing refl)
    | inr there ↦ inr ((λ e. ground arith), rw there (flush_table-Flushed interface table w))
  ]

  -- Without a table for the interface, flushing its routes fails with ESRCH and leaves the cache
  -- as the lookup left it. With a table, the routes of both families are flushed in turn, each as
  -- often as it fails and is allowed; if both succeed, so does the whole, and it forgets this
  -- interface's table number and no other; if one fails, the whole fails with EREMOTEIO, and the
  -- cache is as the lookup left it, so that a later removal still finds the table of an interface
  -- that is gone.
  pub flush_routes-Flushed :
      (interface : String) (w : World)
      → ((table_of kernel interface w ≡ 0)
          × (flush_routes kernel interface w ≡ (err esrch, looked_up kernel interface w)))
        ⊎ ((table_of kernel interface w ≢ 0)
            × Flushed interface
                (table_of kernel interface w)
                (looked_up kernel interface w)
                (flush_routes kernel interface w))
  unfolding flush_routes ◌>>=◌ require_table
  flush_routes-Flushed interface w =
      found-Flushed interface (get_route_table_for_interface kernel interface w)
