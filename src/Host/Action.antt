-- ===== src/Host/Action.antt =====
-- Code that talks to the host and may return an error. What was done before an error stays done, so
-- the history comes back beside the error too.
use apple_pod_control.Prelude.{
  ℕ, ◌+◌, ◌≡◌, refl, Bool, false, Option, none, some, ◌∷◌, String, ◌⊎◌, inl, inr, if◌then◌else◌,
  arith,
}
use apple_pod_control.Host.{
  Error, fail, wrap, join, Command, Reply, Context, Event, ran, clock_read, context_polled, waited,
  History, Host, earliest, is_done,
}

pub data Res {ℓ} (A : Type ℓ) : Type ℓ where
  ok : A → Res A
  err : Error → Res A

abbrev pub Action : Type 0 → Type 0
Action A = History → Res A × History

module _ {A : Type 0} where
  unfoldable pub pure : A → Action A
  pure a h = (ok a, h)

  unfoldable pub raise : Error → Action A
  raise e h = (err e, h)

  unfoldable pub lift : Res A → Action A
  lift r h = (r, h)

  -- `x, err := m`, with the error as a value
  unfoldable pub attempt : Action A → Action (Res A)
  attempt m h = let (r, h') = m h in (ok r, h')

  abbrev pub wrap_res : String → Res A → Res A
  wrap_res s (ok a) = ok a
  wrap_res s (err e) = err (wrap s e)

  -- `if err != nil { return fmt.Errorf("…: %w", err) }`
  unfoldable pub wrapped : String → Action A → Action A
  wrapped s m h = let (r, h') = m h in (wrap_res s r, h')

  -- One question to the host: it is recorded, and answered from what came before.
  unfoldable pub ask : Event → (History → A) → Action A
  ask e answer h = (ok (answer h), e ∷ h)

unfoldable pub raise_if : Bool → Error → Action Unit
raise_if b e h = (if b then err e else ok tt, h)

module _ {A B : Type 0} where
  abbrev pub continue : Res A → (A → Action B) → Action B
  continue (ok a) f h = f a h
  continue (err e) f h = (err e, h)

  infixl 5 ◌>>=◌ ◌>>◌
  unfoldable pub ◌>>=◌ : Action A → (A → Action B) → Action B
  unfolding pure raise lift attempt wrapped ask raise_if
  ◌>>=◌ m f h = let (r, h') = m h in continue r f h'

  abbrev pub ◌>>◌ : Action A → Action B → Action B
  m >> n = m >>= λ _. n

  -- A block that returned: its first step returned, and so did the rest from there.
  pub >>=-eq-ok :
      (m : Action A) (f : A → Action B) (h h' : History) (b : B)
      → (m >>= f) h ≡ (ok b, h')
      → (a : A) × (g : History) × (m h ≡ (ok a, g)) × (f a g ≡ (ok b, h'))
  unfolding ◌>>=◌
  >>=-eq-ok m f h h' b e = go (m h) refl
    where
      go :
          (p : Res A × History)
          → m h ≡ p
          → (a : A) × (g : History) × (m h ≡ (ok a, g)) × (f a g ≡ (ok b, h'))
      go (ok a, g) q = (a, g, q, ground (arith, q, e))
      go (err x, g) q = ground (arith, q, e)

  -- A block ends with the error of its first step, or goes on with the rest.
  pub >>=-cases :
      (m : Action A) (f : A → Action B) (h : History)
      → ((e : Error) × (g : History) × (m h ≡ (err e, g)) × ((m >>= f) h ≡ (err e, g)))
        ⊎ ((a : A) × (g : History) × (m h ≡ (ok a, g)) × ((m >>= f) h ≡ f a g))
  unfolding ◌>>=◌
  >>=-cases m f h = go (m h) refl
    where
      go :
          (p : Res A × History)
          → m h ≡ p
          → ((e : Error) × (g : History) × (m h ≡ (err e, g)) × ((m >>= f) h ≡ (err e, g)))
            ⊎ ((a : A) × (g : History) × (m h ≡ (ok a, g)) × ((m >>= f) h ≡ f a g))
      go (ok a, g) q = inr (a, g, q, ground (arith, q))
      go (err e, g) q = inl (e, g, q, ground (arith, q))

  -- The rest after a step whose result is known.
  pub >>=-of-ok :
      (m : Action A) (f : A → Action B) (h g : History) (a : A)
      → m h ≡ (ok a, g)
      → (m >>= f) h ≡ f a g
  unfolding ◌>>=◌
  >>=-of-ok m f h g a e = ground (arith, e)

-- A guard that let the code go on was false, and did nothing.
pub raise_if-eq-ok :
    (b : Bool) (e : Error) (h h' : History) → raise_if b e h ≡ (ok tt, h') → (b ≡ false) × (h' ≡ h)
unfolding raise_if
raise_if-eq-ok b e h h' p = ground arith

module _ {A : Type 0} where
  pub wrapped-eq-ok :
      (s : String) (m : Action A) (a : A) (h g : History)
      → wrapped s m h ≡ (ok a, g)
      → m h ≡ (ok a, g)
  unfolding wrapped
  wrapped-eq-ok s m a h g e = go (m h) refl
    where
      go : (p : Res A × History) → m h ≡ p → m h ≡ (ok a, g)
      go (ok b, k) q = ground (arith, q, e)
      go (err x, k) q = ground (arith, q, e)

  pub attempt-eq-ok :
      (m : Action A) (r : Res A) (a : A) (h g : History)
      → attempt m h ≡ (ok r, g)
      → r ≡ ok a
      → m h ≡ (ok a, g)
  unfolding attempt
  attempt-eq-ok m r a h g e same = go (m h) refl
    where
      go : (p : Res A × History) → m h ≡ p → m h ≡ (ok a, g)
      go (ok b, k) q = ground (arith, q, e, same)
      go (err x, k) q = ground (arith, q, e, same)

  pub pure-eq-ok : (a b : A) (h h' : History) → pure a h ≡ (ok b, h') → a ≡ b
  unfolding pure
  pure-eq-ok a b h h' e = ground arith

  pub lift-eq-ok : (r : Res A) (b : A) (h h' : History) → lift r h ≡ (ok b, h') → r ≡ ok b
  unfolding lift
  lift-eq-ok r b h h' e = ground (arith, e)

  pub lift-history : (r : Res A) (b : A) (h h' : History) → lift r h ≡ (ok b, h') → h' ≡ h
  unfolding lift
  lift-history r b h h' e = ground arith

-- m.runner.Run(ctx, m.binary, …)
unfoldable pub run_command : Host → Context → Command → Action Reply
unfolding ask
run_command host ctx c = ask (ran ctx c) (host.reply ctx c)

-- ctx.Err() != nil
unfoldable pub context_err : Host → Context → Action Bool
unfolding ask is_done
context_err host ctx = ask context_polled (is_done host ctx)

-- time.Now()
unfoldable pub now : Host → Action ℕ
unfolding ask
now host = ask clock_read host.clock

-- context.WithTimeout(ctx, timeout)
unfoldable pub with_timeout : Host → Context → ℕ → Action Context
unfolding now ◌>>=◌
with_timeout host ctx timeout = do
  start ← now host
  pure (record ctx { deadline = earliest ctx.deadline (start + timeout) })

-- One select between the ticker and ctx.Done.
unfoldable pub wait : Action Unit
unfolding ask
wait = ask waited (λ _. tt)

-- commandError
abbrev pub command_error : String → Error
command_error operation = fail operation

-- errors.Join(stop_err, err)
abbrev pub join_with : Error → Option Error → Error
join_with e none = e
join_with e (some f) = join e f
