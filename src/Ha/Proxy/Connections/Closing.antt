-- ===== src/Ha/Proxy/Connections/Closing.antt =====
-- No connection outlives the shutdown of the proxy.
use apple_pod_control.Prelude.{
  false, ℕ, true, ◌≡◌, refl, ap, ◌||◌, List, [], ◌∷◌, ◌++◌, arith, ◌==◌, inl, inr, Bool-cases,
}
use apple_pod_control.Ha.Config.{contains_number}
use apple_pod_control.Ha.Proxy.Connections.{
  HaProxyConnections, Connected, connected_at_start, new_ha_proxy_connections, add, remove,
  begin_close_all, delete_number, insert_number, after_add, after_remove, after_begin,
  ConnectionReached, adds, removes, begins, closes, at_start, next_step,
}

contains-append :
    (xs ys : List ℕ) (n : ℕ)
    → contains_number (xs ++ ys) n ≡ (contains_number xs n || contains_number ys n)
unfolding contains_number
contains-append [] ys n = refl
contains-append (x ∷ xs) ys n = ground (arith, contains-append xs ys n)

contains-delete :
    (xs : List ℕ) (m n : ℕ)
    → contains_number xs n ≡ true
    → (contains_number (delete_number xs m) n || (m == n)) ≡ true
unfolding contains_number delete_number
contains-delete [] m n h = ground (arith, h)
contains-delete (x ∷ xs) m n h = ground (arith, h, contains-delete xs m n)

pub delete-contains :
    (xs : List ℕ) (m n : ℕ)
    → contains_number (delete_number xs m) n ≡ true
    → contains_number xs n ≡ true
unfolding contains_number delete_number
delete-contains [] m n h = ground (arith, h)
delete-contains (x ∷ xs) m n h = ground (arith, h, delete-contains xs m n)

contains-insert :
    (xs : List ℕ) (m n : ℕ)
    → contains_number (insert_number xs m) n ≡ (contains_number xs n || (m == n))
unfolding contains_number insert_number
contains-insert xs m n = ground arith

pub add-contains :
    (c : HaProxyConnections) (m n : ℕ)
    → (m == n) ≡ false
    → contains_number c.connections n ≡ false
    → contains_number (add c m).0.connections n ≡ false
unfolding add
add-contains c m n e h = ground (arith, e, h, contains-insert c.connections m n)

-- What holds of the connections at any time.
pub record Accounted (s : Connected) : Type 0 where
  -- once the registry is closed, what it lists is closed or about to be
  pub closing :
      s.registry.closed ≡ true
      → (n : ℕ) → contains_number s.registry.connections n ≡ true
      → (contains_number s.shut n || contains_number s.pending n) ≡ true
  -- nothing that was added is lost
  pub tracked :
      (n : ℕ)
      → contains_number s.added n ≡ true
      → (contains_number s.registry.connections n
          || (contains_number s.removed n || contains_number s.shut n))
        ≡ true

start-Accounted : Accounted connected_at_start
unfolding connected_at_start new_ha_proxy_connections contains_number
start-Accounted = record {
  closing = λ h n e. ground (arith, h);
  tracked = λ n e. ground (arith, e);
}

add-Accounted : (s : Connected) (m : ℕ) → Accounted s → Accounted (after_add s m)
unfolding after_add add contains_number
add-Accounted s m a = elim (Bool-cases s.registry.closed) [
  | inl shut ↦
      rw (shut, add)
        record {
          closing = λ h n e. ground (arith, a.closing shut n e);
          tracked = λ n e. ground (arith, e, a.tracked n);
        }
  | inr opened ↦
      rw (opened, add)
        record {
          closing = λ h n e. ground (arith, h, opened);
          tracked =
              λ n e. ground (arith, e, a.tracked n, contains-insert s.registry.connections m n);
        }
]

remove-Accounted : (s : Connected) (m : ℕ) → Accounted s → Accounted (after_remove s m)
unfolding after_remove remove contains_number
remove-Accounted s m a = record {
  closing = λ h n e. a.closing h n (delete-contains s.registry.connections m n e);
  tracked = λ n e. ground (arith, a.tracked n e, contains-delete s.registry.connections m n);
}

begin-Accounted : (s : Connected) → Accounted s → Accounted (after_begin s)
unfolding after_begin begin_close_all
begin-Accounted s a = record {
  closing = λ h n e. ground (arith, e, contains-append s.registry.connections s.pending n);
  tracked = a.tracked;
}

close-Accounted :
    (s : Connected) (before : List ℕ) (m : ℕ) (rest : List ℕ)
    → s.pending ≡ before ++ m ∷ rest
    → Accounted s
    → Accounted (record s { pending = before ++ rest; shut = m ∷ s.shut })
unfolding contains_number
close-Accounted s before m rest split a = record {
  closing = λ h n e. ground (
    arith,
    a.closing h n e,
    ap (λ xs. contains_number xs n) split,
    contains-append before (m ∷ rest) n,
    contains-append before rest n,
  );
  tracked = λ n e. ground (arith, a.tracked n e);
}

reached-Accounted : (s : Connected) → ConnectionReached s → Accounted s
reached-Accounted z at_start = start-Accounted
reached-Accounted z (next_step u v r (adds s m)) = add-Accounted s m (reached-Accounted s r)
reached-Accounted z (next_step u v r (removes s m)) = remove-Accounted s m (reached-Accounted s r)
reached-Accounted z (next_step u v r (begins s)) = begin-Accounted s (reached-Accounted s r)
reached-Accounted z (next_step u v r (closes s before m rest split)) =
    close-Accounted s before m rest split (reached-Accounted s r)

-- In whatever order the goroutines add and remove connections and run closeAll, also more than once:
-- once the registry is closed and no closeAll has a connection left to close, every connection that was
-- ever given to add is closed, or was given to remove by the goroutine that serves it.
pub closed_all :
    (s : Connected)
    → ConnectionReached s
    → s.registry.closed ≡ true
    → s.pending ≡ []
    → (n : ℕ) → contains_number s.added n ≡ true
    → (contains_number s.shut n || contains_number s.removed n) ≡ true
unfolding contains_number
closed_all s r closed done n e =
    let a = reached-Accounted s r in
    ground (arith, a.tracked n e, a.closing closed n, ap (λ xs. contains_number xs n) done)
