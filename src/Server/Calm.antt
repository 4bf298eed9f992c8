-- ===== src/Server/Calm.antt =====
-- Actions that end and read from the connection at most what is there, one rule for each way to
-- build an action.
use pond.Prelude.{
  ℕ, ◌+◌, ◌≤◌, ◌≡◌, ◌≢◌, refl, Bool, true, false, List, length, length-drop, if◌then◌else◌, arith,
}
use pond.Server.Conn.{
  Conn, Io, Result, Error, ok, err, panic, stuck, pure, fail, crash, continue, forget, ignoring,
  receive, send, ◌>>=◌,
}
use pond.Server.Discard.{discard, discard_lem}

pub record IsCalm {A : Type 0} (m : Io A) : Type 0 where
  pub reads : (c : Conn) → length (m c).1.incoming ≤ length c.incoming
  pub ends : (c : Conn) → (m c).0 ≢ stuck

module _ {A : Type 0} where
  pub IsCalm-pure : (a : A) → IsCalm (pure a)
  IsCalm-pure a = record { reads = λ c. omega arith; ends = λ c e. cc }

  pub IsCalm-fail : (e : Error) → IsCalm (fail {A = A} e)
  IsCalm-fail x = record { reads = λ c. omega arith; ends = λ c e. cc }

  pub IsCalm-crash : IsCalm (crash {A = A})
  IsCalm-crash = record { reads = λ c. omega arith; ends = λ c e. cc }

  pub IsCalm-if : (b : Bool) (m n : Io A) → IsCalm m → IsCalm n → IsCalm (if b then m else n)
  IsCalm-if true m n p q = p
  IsCalm-if false m n p q = q

pub IsCalm-receive : (n : ℕ) → IsCalm (receive n)
unfolding receive
IsCalm-receive n = record {
  reads = λ c. ground (arith, length-drop n c.incoming);
  ends = λ c e. ground arith;
}

pub IsCalm-send : (bytes : List ℕ) → IsCalm (send bytes)
unfolding send
IsCalm-send bytes = record { reads = λ c. ground arith; ends = λ c e. ground arith }

pub IsCalm-discard : (n : ℕ) → IsCalm (discard n)
IsCalm-discard n = record {
  reads = λ c. ground (arith, discard_lem n c, length-drop n c.incoming);
  ends = λ c e. ground (arith, discard_lem n c);
}

module _ {A B : Type 0} where
  -- What follows a result that is not `stuck`.
  continue-reads :
      (r : Result A) (f : A → Io B) (c : Conn)
      → ((a : A) → IsCalm (f a))
      → length (continue r f c).1.incoming ≤ length c.incoming
  continue-reads (ok a) f c h = (h a).reads c
  continue-reads (err e) f c h = omega arith
  continue-reads panic f c h = omega arith
  continue-reads stuck f c h = omega arith

  continue-ends :
      (r : Result A) (f : A → Io B) (c : Conn)
      → r ≢ stuck
      → ((a : A) → IsCalm (f a))
      → (continue r f c).0 ≢ stuck
  continue-ends (ok a) f c n h = (h a).ends c
  continue-ends (err e) f c n h = λ p. cc
  continue-ends panic f c n h = λ p. cc
  continue-ends stuck f c n h = absurd (n refl)

  pub IsCalm-bind :
      (m : Io A) (f : A → Io B) → IsCalm m → ((a : A) → IsCalm (f a)) → IsCalm (m >>= f)
  IsCalm-bind m f p h = record {
    reads = λ c. let (r, c') = m c in omega (arith, p.reads c, continue-reads r f c' h);
    ends = λ c. let (r, c') = m c in continue-ends r f c' (p.ends c) h;
  }

  forget-reads :
      (r : Result A) (k : Io B) (c : Conn)
      → IsCalm k
      → length (forget r k c).1.incoming ≤ length c.incoming
  forget-reads (ok a) k c h = h.reads c
  forget-reads (err e) k c h = h.reads c
  forget-reads panic k c h = omega arith
  forget-reads stuck k c h = omega arith

  forget-ends :
      (r : Result A) (k : Io B) (c : Conn) → r ≢ stuck → IsCalm k → (forget r k c).0 ≢ stuck
  forget-ends (ok a) k c n h = h.ends c
  forget-ends (err e) k c n h = h.ends c
  forget-ends panic k c n h = λ p. cc
  forget-ends stuck k c n h = absurd (n refl)

  pub IsCalm-ignoring : (m : Io A) (k : Io B) → IsCalm m → IsCalm k → IsCalm (ignoring m k)
  IsCalm-ignoring m k p h = record {
    reads = λ c. let (r, c') = m c in omega (arith, p.reads c, forget-reads r k c' h);
    ends = λ c. let (r, c') = m c in forget-ends r k c' (p.ends c) h;
  }

module _ {A B : Type 0} where
  -- An action that looks at the result of `m`, and is calm where `m` is not stuck.
  pub IsCalm-then :
      (m : Io A) (g : Result A → Io B)
      → IsCalm m
      → ((r : Result A) → r ≢ stuck → IsCalm (g r))
      → IsCalm (λ c. g (m c).0 (m c).1)
  IsCalm-then m g p h = record {
    reads = λ c. omega (arith, p.reads c, (h (m c).0 (p.ends c)).reads (m c).1);
    ends = λ c. (h (m c).0 (p.ends c)).ends (m c).1;
  }

  -- With a value of `m` behind which `k` bytes fewer are left, a value at the end has that too.
  pub continue_takes :
      (r : Result A) (f : A → Io B) (c : Conn) (n k : ℕ) (b : B)
      → ((a : A) → IsCalm (f a))
      → ((a : A) → r ≡ ok a → length c.incoming + k ≤ n)
      → (continue r f c).0 ≡ ok b
      → length (continue r f c).1.incoming + k ≤ n
  continue_takes (ok a) f c n k b h t e = omega (arith, (h a).reads c, t a refl)
  continue_takes (err x) f c n k b h t e = cc
  continue_takes panic f c n k b h t e = cc
  continue_takes stuck f c n k b h t e = cc

pub ruleset calm_rules = (
  IsCalm-pure, IsCalm-fail, IsCalm-crash, IsCalm-if, IsCalm-receive, IsCalm-send, IsCalm-discard,
  IsCalm-bind, IsCalm-ignoring,
)
