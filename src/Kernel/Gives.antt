-- ===== src/Kernel/Gives.antt =====
-- A property of what an action returns, where it returns.
use platform_system_netd.Prelude.{Bool, true, false, if◌then◌else◌}
use platform_system_netd.Kernel.{World, Result, ok, err, Exec, pure, continue, ◌>>=◌}

abbrev pub IfOk {ℓ} : {A : Type ℓ} → (A → Type 0) → Result A → Type 0
IfOk P (ok a) = P a
IfOk P (err e) = Unit

pub record Gives {ℓ} {A : Type ℓ} (P : A → Type 0) (m : Exec A) : Type ℓ where
  pub at : (w : World) → IfOk P (m w).0

module _ {ℓ} {A : Type ℓ} where
  pub Gives-pure : (P : A → Type 0) (a : A) → P a → Gives P (pure a)
  unfolding pure
  Gives-pure P a h = record { at = λ w. h }

module _ {ℓ κ} {A : Type ℓ} {B : Type κ} where
  continue-IfOk :
      (P : B → Type 0) (f : A → Exec B) (out : Result A × World)
      → ((a : A) → Gives P (f a))
      → IfOk P (continue f out).0
  continue-IfOk P f (ok a, w) h = (h a).at w
  continue-IfOk P f (err e, w) h = tt

  pub Gives-bind :
      (P : B → Type 0) (m : Exec A) (f : A → Exec B) → ((a : A) → Gives P (f a)) → Gives P (m >>= f)
  unfolding ◌>>=◌
  Gives-bind P m f h = record { at = λ w. continue-IfOk P f (m w) h }

module _ {ℓ κ} {A : Type ℓ} {B : Type κ} where
  map-IfOk :
      (P : B → Type 0) (f : A → B) (out : Result A × World)
      → IfOk (λ a. P (f a)) out.0
      → IfOk P (continue (λ a. pure (f a)) out).0
  unfolding pure
  map-IfOk P f (ok a, w) h = h
  map-IfOk P f (err e, w) h = tt

  pub Gives-map :
      (P : B → Type 0) (f : A → B) (m : Exec A)
      → Gives (λ a. P (f a)) m
      → Gives P (m >>= λ a. pure (f a))
  unfolding ◌>>=◌
  Gives-map P f m h = record { at = λ w. map-IfOk P f (m w) (h.at w) }

module _ {ℓ} {A : Type ℓ} where
  IfOk-mono : {P Q : A → Type 0} (r : Result A) → ((a : A) → P a → Q a) → IfOk P r → IfOk Q r
  IfOk-mono (ok a) f h = f a h
  IfOk-mono (err e) f h = tt

  pub Gives-mono : {P Q : A → Type 0} (m : Exec A) → ((a : A) → P a → Q a) → Gives P m → Gives Q m
  Gives-mono {P} {Q} m f h = record { at = λ w. IfOk-mono {P = P} {Q = Q} (m w).0 f (h.at w) }

  pub Gives-if :
      (P : A → Type 0) (b : Bool) (m n : Exec A)
      → Gives P m
      → Gives P n
      → Gives P (if b then m else n)
  Gives-if P true m n hm hn = hm
  Gives-if P false m n hm hn = hn

pub ruleset gives_rules = (Gives-pure, Gives-bind, Gives-if)
