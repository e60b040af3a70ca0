-- ===== src/Kernel/Issues.antt =====
-- What an action asks of the kernel: a list of calls, in order, all of them if it returns, and the
-- first few if it fails.
use platform_system_netd.Prelude.{
  ℕ, ◌≡◌, refl, sym, ap, ◌∙◌, Bool, true, false, List, [], ◌++◌, append-nil, append_assoc,
  if◌then◌else◌,
}
use platform_system_netd.Kernel.{
  Call, Exec, Result, ok, err, World, pure, raise, lift, continue, ◌>>=◌, ◌>>◌,
}

abbrev pub IsOk {ℓ} : {A : Type ℓ} → Result A → Type 0
IsOk (ok a) = Unit
IsOk (err e) = ⊥

pub record Trace {ℓ} {A : Type ℓ} (plan : List Call) (w : World) (out : Result A × World)
    : Type 0 where
  pub done : List Call
  pub rest : List Call
  pub in_order : done ++ rest ≡ plan
  pub recorded : out.1.calls ≡ w.calls ++ done
  pub complete : IsOk out.0 → rest ≡ []
  pub cache : out.1.interface_to_table ≡ w.interface_to_table

pub record Issues {ℓ} {A : Type ℓ} (plan : List Call) (m : Exec A) : Type ℓ where
  pub at : (w : World) → Trace plan w (m w)

module _ {ℓ} {A : Type ℓ} where
  pub Issues-pure : (a : A) → Issues [] (pure a)
  unfolding pure
  Issues-pure a = record {
    at = λ w. record {
      done = [];
      rest = [];
      in_order = refl;
      recorded = sym (append-nil w.calls);
      complete = λ _. refl;
      cache = refl;
    };
  }

  pub Issues-raise : (plan : List Call) (e : ℕ) → Issues plan (raise {A = A} e)
  unfolding raise
  Issues-raise plan e = record {
    at = λ w. record {
      done = [];
      rest = plan;
      in_order = refl;
      recorded = sym (append-nil w.calls);
      complete = λ h. absurd h;
      cache = refl;
    };
  }

  pub Issues-if :
      (b : Bool) {plan : List Call} (m n : Exec A)
      → Issues plan m
      → Issues plan n
      → Issues plan (if b then m else n)
  Issues-if true m n hm hn = hm
  Issues-if false m n hm hn = hn

module _ {ℓ κ} {A : Type ℓ} {B : Type κ} {p q : List Call} where
  continue-Trace :
      (f : A → Exec B) (w : World) (out : Result A × World)
      → Trace p w out
      → ((a : A) → Issues q (f a))
      → Trace (p ++ q) w (continue f out)
  continue-Trace f w (ok a, w') t hf = record {
    done = t.done ++ u.done;
    rest = u.rest;
    in_order =
        append_assoc t.done u.done u.rest ∙ ap (◌++◌ t.done) u.in_order ∙ ap (λ d. d ++ q) whole;
    recorded = u.recorded ∙ ap (λ c. c ++ u.done) t.recorded ∙ append_assoc w.calls t.done u.done;
    complete = u.complete;
    cache = u.cache ∙ t.cache;
  }
    where
      u : Trace q w' (f a w')
      u = (hf a).at w'

      whole : t.done ≡ p
      whole = sym (append-nil t.done) ∙ ap (◌++◌ t.done) (sym (t.complete tt)) ∙ t.in_order
  continue-Trace f w (err e, w') t hf = record {
    done = t.done;
    rest = t.rest ++ q;
    in_order = sym (append_assoc t.done t.rest q) ∙ ap (λ d. d ++ q) t.in_order;
    recorded = t.recorded;
    complete = λ h. absurd h;
    cache = t.cache;
  }

  pub Issues-bind :
      (m : Exec A) (f : A → Exec B)
      → Issues p m
      → ((a : A) → Issues q (f a))
      → Issues (p ++ q) (m >>= f)
  unfolding ◌>>=◌
  Issues-bind m f hm hf = record { at = λ w. continue-Trace f w (m w) (hm.at w) hf }

module _ {ℓ κ} {A : Type ℓ} {B : Type κ} {q : List Call} where
  -- A step that asks nothing may fail before the rest.
  pub Issues-lift :
      (r : Result A) (f : A → Exec B)
      → ((a : A) → r ≡ ok a → Issues q (f a))
      → Issues q (lift r >>= f)
  unfolding ◌>>=◌ lift raise
  Issues-lift (ok a) f h = record { at = λ w. (h a refl).at w }
  Issues-lift (err e) f h = record { at = λ w. (Issues-raise q e).at w }

-- An action that returned has asked for the whole plan.
pub Trace-complete {ℓ} :
    {A : Type ℓ} {plan : List Call} (w : World) (out : Result A × World)
    → Trace plan w out
    → IsOk out.0
    → out.1.calls ≡ w.calls ++ plan
Trace-complete w out t h =
    t.recorded
    ∙ ap (◌++◌ w.calls)
        (sym (append-nil t.done) ∙ ap (◌++◌ t.done) (sym (t.complete h)) ∙ t.in_order)

module _ {ℓ κ} {A : Type ℓ} {B : Type κ} (n : Exec B) where
  continue-IsOk :
      (out : Result A × World)
      → IsOk (continue (λ _. n) out).0
      → IsOk out.0 × (continue (λ _. n) out ≡ n out.1)
  continue-IsOk (ok a, w) h = (tt, refl)
  continue-IsOk (err e, w) h = absurd h

  -- Two steps return only if the first does, and then run one after the other.
  pub then-IsOk :
      (m : Exec A) (w : World) → IsOk ((m >> n) w).0 → IsOk (m w).0 × ((m >> n) w ≡ n (m w).1)
  unfolding ◌>>=◌
  then-IsOk m w h = continue-IsOk (m w) h
