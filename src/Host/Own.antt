-- ===== src/Host/Own.antt =====
-- Actions whose mutating commands are all about one container.
use apple_pod_control.Prelude.{◌≡◌, arith, List, [], ◌∷◌, Option, none, some, if◌then◌else◌}
use apple_pod_control.Text.{Text, text, text_eq}
use apple_pod_control.Host.{
  Command, inspect, volume_inspect, network_inspect, stop, delete, volume_delete, network_delete,
  logs, exec, run, network_create, volume_create, Event, ran, probed_api, clock_read,
  context_polled, waited, config_read, desired_read, desired_written, token_read, path_checked,
  locked, stored, History,
}
use apple_pod_control.Host.Action.{Action}
use apple_pod_control.Host.Emits.{Emitted, Emits, Emitted-weaken}
use apple_pod_control.Host.Mutations.{IsQuery}

-- The value of the first option `--name`, which names the container that `container run` makes.
unfoldable pub name_option : List Text → Option Text
name_option [] = none
name_option (option ∷ []) = none
name_option (option ∷ value ∷ rest) =
    let later = name_option (value ∷ rest) in
    if text_eq option (text "--name") then some value else later

-- The arguments of a run that makes the container of this name.
abbrev pub IsRunOf : Text → List Text → Type 0
IsRunOf name arguments = name_option arguments ≡ some name

-- Any arguments at all.
abbrev pub AnyRun : List Text → Type 0
AnyRun arguments = Unit

-- A command that only looks, one that stops or deletes the container of this name, or a run whose
-- arguments satisfy a predicate.
abbrev pub OwnCommand : (List Text → Type 0) → Text → Command → Type 0
OwnCommand R name (stop n) = n ≡ name
OwnCommand R name (delete n) = n ≡ name
OwnCommand R name (run arguments) = R arguments
OwnCommand R name (volume_delete n) = ⊥
OwnCommand R name (network_delete n) = ⊥
OwnCommand R name (network_create a) = ⊥
OwnCommand R name (volume_create a) = ⊥
OwnCommand R name _ = Unit

-- Such a command, or an event that is no command, no change of the program's files and no step of a
-- lock.
abbrev pub OnlyOwn : (List Text → Type 0) → Text → Event → Type 0
OnlyOwn R name (ran ctx c) = OwnCommand R name c
OnlyOwn R name (desired_written s) = ⊥
OnlyOwn R name (locked n s) = ⊥
OnlyOwn R name (stored s) = ⊥
OnlyOwn R name _ = Unit

own-IsQuery : (R : List Text → Type 0) (name : Text) (e : Event) → IsQuery e → OnlyOwn R name e
own-IsQuery R name (ran ctx (inspect n)) q = tt
own-IsQuery R name (ran ctx (volume_inspect n)) q = tt
own-IsQuery R name (ran ctx (network_inspect n)) q = tt
own-IsQuery R name (ran ctx (logs n)) q = tt
own-IsQuery R name (ran ctx (exec n a)) q = tt
own-IsQuery R name (ran ctx (stop n)) q = ground (arith, q)
own-IsQuery R name (ran ctx (delete n)) q = ground (arith, q)
own-IsQuery R name (ran ctx (run a)) q = ground (arith, q)
own-IsQuery R name (ran ctx (volume_delete n)) q = ground (arith, q)
own-IsQuery R name (ran ctx (network_delete n)) q = ground (arith, q)
own-IsQuery R name (ran ctx (network_create a)) q = ground (arith, q)
own-IsQuery R name (ran ctx (volume_create a)) q = ground (arith, q)
own-IsQuery R name (desired_written s) q = absurd q
own-IsQuery R name (probed_api m) q = tt
own-IsQuery R name clock_read q = tt
own-IsQuery R name context_polled q = tt
own-IsQuery R name waited q = tt
own-IsQuery R name (config_read t) q = tt
own-IsQuery R name (desired_read t) q = tt
own-IsQuery R name (token_read t) q = tt
own-IsQuery R name (path_checked t) q = tt
own-IsQuery R name (locked n s) q = absurd q
own-IsQuery R name (stored s) q = absurd q

-- What only looks touches no other container.
pub Emits-own :
    {R : List Text → Type 0} {A : Type 0} (name : Text) (m : Action A)
    → Emits IsQuery m
    → Emits (OnlyOwn R name) m
Emits-own {R = R} name m q = record { at = λ h. Emitted-weaken (own-IsQuery R name) (q.at h) }

-- Such an event, or a write of the operator's intent.
abbrev pub OwnOrIntent : (List Text → Type 0) → Text → Event → Type 0
OwnOrIntent R name (desired_written s) = Unit
OwnOrIntent R name e = OnlyOwn R name e

own-OwnOrIntent :
    (R : List Text → Type 0) (name : Text) (e : Event) → OnlyOwn R name e → OwnOrIntent R name e
own-OwnOrIntent R name (ran ctx c) q = q
own-OwnOrIntent R name (desired_written s) q = tt
own-OwnOrIntent R name (probed_api m) q = tt
own-OwnOrIntent R name clock_read q = tt
own-OwnOrIntent R name context_polled q = tt
own-OwnOrIntent R name waited q = tt
own-OwnOrIntent R name (config_read t) q = tt
own-OwnOrIntent R name (desired_read t) q = tt
own-OwnOrIntent R name (token_read t) q = tt
own-OwnOrIntent R name (path_checked t) q = tt
own-OwnOrIntent R name (locked n s) q = q
own-OwnOrIntent R name (stored s) q = q

pub Emits-intent :
    {R : List Text → Type 0} {A : Type 0} (name : Text) (m : Action A)
    → Emits (OnlyOwn R name) m
    → Emits (OwnOrIntent R name) m
Emits-intent {R = R} name m q = record {
  at = λ h. Emitted-weaken (own-OwnOrIntent R name) (q.at h);
}

pub Emitted-intent :
    {R : List Text → Type 0} (name : Text) (h g : History)
    → Emitted (OnlyOwn R name) h g
    → Emitted (OwnOrIntent R name) h g
Emitted-intent {R = R} name h g s = Emitted-weaken (own-OwnOrIntent R name) s
