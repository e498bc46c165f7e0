-- ===== src/Host/Emits.antt =====
-- Which events an action adds to the history, whatever it returns: one rule for each way to build
-- an action.
use apple_pod_control.Prelude.{◌≡◌, Bool, true, false, ◌∷◌, String, if◌then◌else◌}
use mathlib.Core.Path.{subst}
use apple_pod_control.Host.{Error, Event, History, Context, Command, Host, ran, context_polled}
use apple_pod_control.Host.Action.{
  Res, ok, err, Action, pure, raise, lift, attempt, wrapped, ask, raise_if, continue, ◌>>=◌,
  run_command, context_err,
}

pub data Emitted (P : Event → Type 0) (h : History) : History → Type 0 where
  here : Emitted P h h
  and_then : {h' : History} {e : Event} → Emitted P h h' → P e → Emitted P h (e ∷ h')

pub Emitted-trans :
    {P : Event → Type 0} {h i j : History} → Emitted P h i → Emitted P i j → Emitted P h j
Emitted-trans s here = s
Emitted-trans s (and_then t p) = and_then (Emitted-trans s t) p

pub Emitted-weaken :
    {P Q : Event → Type 0} {h i : History}
    → ((e : Event) → P e → Q e)
    → Emitted P h i
    → Emitted Q h i
Emitted-weaken w here = here
Emitted-weaken w (and_then {e = e} t p) = and_then (Emitted-weaken w t) (w e p)

-- Every event that `m` adds satisfies `P`.
pub record Emits {A : Type 0} (P : Event → Type 0) (m : Action A) : Type 0 where
  pub at : (h : History) → Emitted P h (m h).1

module _ {A : Type 0} {P : Event → Type 0} where
  pub Emits-pure : (a : A) → Emits P (pure a)
  unfolding pure
  Emits-pure a = record { at = λ h. here }

  pub Emits-raise : (e : Error) → Emits P (raise {A = A} e)
  unfolding raise
  Emits-raise e = record { at = λ h. here }

  pub Emits-lift : (r : Res A) → Emits P (lift r)
  unfolding lift
  Emits-lift r = record { at = λ h. here }

  pub Emits-attempt : (m : Action A) → Emits P m → Emits P (attempt m)
  unfolding attempt
  Emits-attempt m k = record { at = λ h. k.at h }

  pub Emits-wrapped : (s : String) (m : Action A) → Emits P m → Emits P (wrapped s m)
  unfolding wrapped
  Emits-wrapped s m k = record { at = λ h. k.at h }

  pub Emits-ask : (e : Event) (f : History → A) → P e → Emits P (ask e f)
  unfolding ask
  Emits-ask e f p = record { at = λ h. and_then here p }

  pub Emits-if : (b : Bool) (m n : Action A) → Emits P m → Emits P n → Emits P (if b then m else n)
  Emits-if true m n k l = k
  Emits-if false m n k l = l

module _ {P : Event → Type 0} where
  pub Emits-raise_if : (b : Bool) (e : Error) → Emits P (raise_if b e)
  unfolding raise_if
  Emits-raise_if b e = record { at = λ h. here }

module _ {A B : Type 0} {P : Event → Type 0} where
  continue-Emitted :
      (r : Res A) (f : A → Action B) (h : History)
      → ((a : A) → Emits P (f a))
      → Emitted P h (continue r f h).1
  continue-Emitted (ok a) f h k = (k a).at h
  continue-Emitted (err e) f h k = here

  pub Emits-bind :
      (m : Action A) (f : A → Action B) → Emits P m → ((a : A) → Emits P (f a)) → Emits P (m >>= f)
  unfolding ◌>>=◌
  Emits-bind m f k l = record {
    at = λ h. let (r, h') = m h in Emitted-trans (k.at h) (continue-Emitted r f h' l);
  }

module _ {P : Event → Type 0} (host : Host) where
  pub Emits-run_command :
      (ctx : Context) (c : Command) → P (ran ctx c) → Emits P (run_command host ctx c)
  unfolding run_command
  Emits-run_command ctx c p = record { at = λ h. and_then here p }

  pub Emits-context_err : (ctx : Context) → P context_polled → Emits P (context_err host ctx)
  unfolding context_err
  Emits-context_err ctx p = record { at = λ h. and_then here p }

-- The events of a step, once its result is known.
pub Emits-Emitted :
    {A : Type 0} {P : Event → Type 0} {m : Action A} {h g : History} {r : Res A}
    → Emits P m
    → m h ≡ (r, g)
    → Emitted P h g
Emits-Emitted {P = P} {h = h} q e = subst (λ p. Emitted P h p.1) e (q.at h)
