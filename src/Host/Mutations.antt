-- ===== src/Host/Mutations.antt =====
-- The commands of a history that change the runtime, and the events that change nothing.
use apple_pod_control.Prelude.{
  ◌≡◌, refl, ◌∙◌, Bool, true, false, List, [], ◌∷◌, if◌then◌else◌, arith,
}
use apple_pod_control.Host.{
  Command, inspect, volume_inspect, network_inspect, logs, exec, Event, ran, probed_api, clock_read,
  context_polled, waited, config_read, desired_read, desired_written, token_read, path_checked,
  locked, stored, History,
}
use apple_pod_control.Host.Action.{Action}
use apple_pod_control.Host.Emits.{Emitted, here, and_then, Emits, Emitted-weaken}

-- The commands that only look.
abbrev pub is_look : Command → Bool
is_look (inspect n) = true
is_look (volume_inspect n) = true
is_look (network_inspect n) = true
is_look (logs n) = true
is_look (exec n a) = true
is_look _ = false

abbrev pub Looks : Command → Type 0
Looks c = is_look c ≡ true

-- Neither a mutating command, nor a change of the program's files, nor a step of a lock.
abbrev pub IsQuery : Event → Type 0
IsQuery (ran ctx c) = Looks c
IsQuery (desired_written s) = ⊥
IsQuery (locked n s) = ⊥
IsQuery (stored s) = ⊥
IsQuery _ = Unit

-- The mutating commands, newest first.
unfoldable pub mutations : History → List Command
mutations [] = []
mutations (ran ctx c ∷ h) = if is_look c then mutations h else c ∷ mutations h
mutations (_ ∷ h) = mutations h

mutations-IsQuery : (e : Event) (h : History) → IsQuery e → mutations (e ∷ h) ≡ mutations h
unfolding mutations
mutations-IsQuery (ran ctx c) h q = ground arith
mutations-IsQuery (desired_written s) h q = absurd q
mutations-IsQuery (probed_api m) h q = refl
mutations-IsQuery clock_read h q = refl
mutations-IsQuery context_polled h q = refl
mutations-IsQuery waited h q = refl
mutations-IsQuery (config_read t) h q = refl
mutations-IsQuery (desired_read t) h q = refl
mutations-IsQuery (token_read t) h q = refl
mutations-IsQuery (path_checked t) h q = refl
mutations-IsQuery (locked n s) h q = absurd q
mutations-IsQuery (stored s) h q = absurd q

pub mutations-Emitted : {h h' : History} → Emitted IsQuery h h' → mutations h' ≡ mutations h
mutations-Emitted here = refl
mutations-Emitted (and_then {h' = g} {e = e} s q) = mutations-IsQuery e g q ∙ mutations-Emitted s

-- An action that only asks leaves the runtime as it was.
pub mutations-Emits :
    {A : Type 0} (m : Action A) (h : History) → Emits IsQuery m → mutations (m h).1 ≡ mutations h
mutations-Emits m h q = mutations-Emitted (q.at h)

-- No mutating command.
abbrev pub IsQuiet : Event → Type 0
IsQuiet (ran ctx c) = Looks c
IsQuiet _ = Unit

pub query-IsQuiet : (e : Event) → IsQuery e → IsQuiet e
query-IsQuiet (ran ctx c) q = q
query-IsQuiet (desired_written s) q = tt
query-IsQuiet (probed_api m) q = tt
query-IsQuiet clock_read q = tt
query-IsQuiet context_polled q = tt
query-IsQuiet waited q = tt
query-IsQuiet (config_read t) q = tt
query-IsQuiet (desired_read t) q = tt
query-IsQuiet (token_read t) q = tt
query-IsQuiet (path_checked t) q = tt
query-IsQuiet (locked n s) q = tt
query-IsQuiet (stored s) q = tt

mutations-quiet_event : (e : Event) (h : History) → IsQuiet e → mutations (e ∷ h) ≡ mutations h
unfolding mutations
mutations-quiet_event (ran ctx c) h q = ground arith
mutations-quiet_event (desired_written s) h q = refl
mutations-quiet_event (probed_api m) h q = refl
mutations-quiet_event clock_read h q = refl
mutations-quiet_event context_polled h q = refl
mutations-quiet_event waited h q = refl
mutations-quiet_event (config_read t) h q = refl
mutations-quiet_event (desired_read t) h q = refl
mutations-quiet_event (token_read t) h q = refl
mutations-quiet_event (path_checked t) h q = refl
mutations-quiet_event (locked n s) h q = refl
mutations-quiet_event (stored s) h q = refl

pub mutations-quiet : {h h' : History} → Emitted IsQuiet h h' → mutations h' ≡ mutations h
mutations-quiet here = refl
mutations-quiet (and_then {h' = g} {e = e} s q) = mutations-quiet_event e g q ∙ mutations-quiet s

pub Emits-IsQuiet : {A : Type 0} (m : Action A) → Emits IsQuery m → Emits IsQuiet m
Emits-IsQuiet m q = record { at = λ h. Emitted-weaken query-IsQuiet (q.at h) }
