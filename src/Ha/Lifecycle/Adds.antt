-- ===== src/Ha/Lifecycle/Adds.antt =====
-- Actions with a known list of mutating commands.
use mathlib.Core.Path.{subst}
use mathlib.Core.List.{append_assoc}
use apple_pod_control.Prelude.{◌≡◌, sym, ap, ◌∙◌, false, List, [], ◌∷◌, ◌++◌, String}
use apple_pod_control.Host.{Host, Context, Command, History}
use apple_pod_control.Host.Action.{Action, ok, pure, ◌>>=◌, ◌>>◌, >>=-eq-ok}
use apple_pod_control.Host.Emits.{Emits, Emits-Emitted}
use apple_pod_control.Host.Mutations.{IsQuiet, is_look, mutations, mutations-quiet}
use apple_pod_control.Ha.Queries.{query_rules}
use apple_pod_control.Ha.Addresses.Envelope.{run_ha_bounded}
use apple_pod_control.Ha.Addresses.Envelope.Mutations.{run_ha_bounded-mutations}

-- When the action succeeds, these are its mutating commands, the newest first.
pub record Adds (m : Action Unit) (commands : List Command) : Type 0 where
  pub adds : (h h' : History) → m h ≡ (ok tt, h') → mutations h' ≡ commands ++ mutations h

pub Adds-quiet : (m : Action Unit) → Emits IsQuiet m → Adds m []
Adds-quiet m q = record { adds = λ h h' e. mutations-quiet (Emits-Emitted q e) }

pub Adds-pure : Adds (pure tt) []
Adds-pure = Adds-quiet (pure tt) (search query_rules)

Adds-bind :
    {A : Type 0} (m : Action A) (f : A → Action Unit) (commands : List Command)
    → Emits IsQuiet m
    → ((a : A) → Adds (f a) commands)
    → Adds (m >>= f) commands
Adds-bind m f commands q k = record {
  adds = λ h h' e.
      let (a, g, e1, r1) = >>=-eq-ok _ _ h h' tt e in
      (k a).adds g h' r1 ∙ ap (λ l. commands ++ l) (mutations-quiet (Emits-Emitted q e1));
}

pub Adds-then :
    (m n : Action Unit) (first later : List Command)
    → Adds m first
    → Adds n later
    → Adds (m >> n) (later ++ first)
Adds-then m n first later k l = record {
  adds = λ h h' e.
      let (u, g, e1, r1) = >>=-eq-ok _ _ h h' tt e in
      l.adds g h' r1
      ∙ (ap (λ c. later ++ c) (k.adds h g e1) ∙ sym (append_assoc later first (mutations h)));
}

pub Adds-run :
    (host : Host) (ctx : Context) (operation : String) (c : Command)
    → is_look c ≡ false
    → Adds (run_ha_bounded host ctx operation c) (c ∷ [])
Adds-run host ctx operation c look = record {
  adds = λ h h' e.
      subst (λ g. mutations g ≡ c ∷ mutations h) (ap (λ r. r.1) e)
        (run_ha_bounded-mutations host ctx operation c h look);
}
