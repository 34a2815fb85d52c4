-- ===== src/Run.antt =====
-- Commands of a program with variables `S`: a result and the next machine, or a fault (an access
-- out of bounds, undefined behaviour), or fuel spent before a loop of the source has ended.
use over.Base.{
  subst, List, ℕ, ℤ, pos, negsuc, Option, none, some, Bool, true, false, ◌≡◌, refl, match_option,
  match_int, if◌then◌else◌,
}
use over.Kernel.{Event}

pub record Machine (S : Type 0) : Type 0 where
  pub vars : S
  -- the system calls made so far, the newest first
  pub log : List Event

pub data Out (S : Type 0) (A : Type 0) : Type 0 where
  ok : A → Machine S → Out S A
  fault : Out S A
  spent : Out S A

abbrev pub Cmd : Type 0 → Type 0 → Type 0
Cmd S A = Machine S → Out S A

abbrev pub pure : {S A : Type 0} → A → Cmd S A
pure = ok

module _ {S A B : Type 0} where
  abbrev pub and_then : Out S A → (A → Cmd S B) → Out S B
  and_then (ok a m) k = k a m
  and_then fault k = fault
  and_then spent k = spent

  infixl 5 ◌>>=◌ ◌>>◌
  abbrev pub ◌>>=◌ : Cmd S A → (A → Cmd S B) → Cmd S B
  c >>= k = λ m. and_then (c m) k

  abbrev pub ◌>>◌ : Cmd S A → Cmd S B → Cmd S B
  c >> d = c >>= λ _. d

abbrev pub get_vars : {S : Type 0} → Cmd S S
get_vars m = ok m.vars m

abbrev pub put_vars : {S : Type 0} → S → Cmd S (Unit {0})
put_vars s m = ok tt (record m { vars = s })

-- The run ends, without a fault and within its fuel, in a result and a machine with `P`.
pub data Returns {S A : Type 0} (P : A → Machine S → Type 0) : Out S A → Type 0 where
  returns : {a : A} {m : Machine S} → P a m → Returns P (ok a m)

module _ {S A : Type 0} {P : A → Machine S → Type 0} where
  pub bind :
      {B : Type 0} {Q : B → Machine S → Type 0} {o : Out S A} {k : A → Cmd S B}
      → Returns P o
      → ((a : A) (m : Machine S) → P a m → Returns Q (k a m))
      → Returns Q (and_then o k)
  bind (returns p) next = next _ _ p

  pub mono :
      {Q : A → Machine S → Type 0} {o : Out S A}
      → Returns P o
      → ((a : A) (m : Machine S) → P a m → Q a m)
      → Returns Q o
  mono (returns p) weaken = returns (weaken _ _ p)

-- The end of a run that returns.
pub ran :
    {S A : Type 0} {P : A → Machine S → Type 0} {o : Out S A}
    → Returns P o
    → (a : A) × (m : Machine S) × (o ≡ ok a m) × P a m
ran (returns p) = (_, _, refl, p)

-- Whatever the run ends in, its variables have `I`, unless it faults or spends its fuel.
pub data Keeps {S A : Type 0} (I : S → Type 0) : Out S A → Type 0 where
  keeps : {a : A} {m : Machine S} → I m.vars → Keeps I (ok a m)
  faults : Keeps I fault
  spends : Keeps I spent

module _ {S A B : Type 0} {I : S → Type 0} where
  pub Keeps-bind :
      {o : Out S A} {k : A → Cmd S B}
      → Keeps I o
      → ((a : A) (m : Machine S) → I m.vars → Keeps I (k a m))
      → Keeps I (and_then o k)
  Keeps-bind (keeps h) next = next _ _ h
  Keeps-bind faults next = faults
  Keeps-bind spends next = spends

-- A command that keeps `I` from every machine that has it.
abbrev pub Steady : {S A : Type 0} → (S → Type 0) → Cmd S A → Type 0
Steady {S} I c = (m : Machine S) → I m.vars → Keeps I (c m)

module _ {S A : Type 0} {I : S → Type 0} {m : Machine S} where
  pub Keeps-option :
      {X : Type 0} (o : Option X) (n : Cmd S A) (s : X → Cmd S A)
      → (o ≡ none → Keeps I (n m))
      → ((x : X) → o ≡ some x → Keeps I (s x m))
      → Keeps I (match_option o n s m)
  Keeps-option none n s fn fs = fn refl
  Keeps-option (some x) n s fn fs = fs x refl

  pub Keeps-if :
      (b : Bool) (c d : Cmd S A)
      → (b ≡ true → Keeps I (c m))
      → (b ≡ false → Keeps I (d m))
      → Keeps I ((if b then c else d) m)
  Keeps-if true c d fc fd = fc refl
  Keeps-if false c d fc fd = fd refl

  pub Keeps-int :
      (z : ℤ) (c d : ℕ → Cmd S A)
      → ((n : ℕ) → z ≡ pos n → Keeps I (c n m))
      → ((n : ℕ) → Keeps I (d n m))
      → Keeps I (match_int z c d m)
  Keeps-int (pos n) c d fc fd = fc n refl
  Keeps-int (negsuc n) c d fc fd = fd n

-- Two continuations that agree everywhere may be exchanged.
pub and_then-ext :
    {S A B : Type 0} (o : Out S A) (k k' : A → Cmd S B)
    → ((a : A) (m : Machine S) → k a m ≡ k' a m)
    → and_then o k ≡ and_then o k'
and_then-ext (ok a m) k k' same = same a m
and_then-ext fault k k' same = refl
and_then-ext spent k k' same = refl

-- Two continuations that agree wherever the first command may lead may be exchanged.
pub and_then-Keeps :
    {S A B : Type 0} {I : S → Type 0} (o : Out S A) (k k' : A → Cmd S B)
    → Keeps I o
    → ((a : A) (m : Machine S) → I m.vars → k a m ≡ k' a m)
    → and_then o k ≡ and_then o k'
and_then-Keeps (ok a m) k k' (keeps h) same = same a m h
and_then-Keeps fault k k' h same = refl
and_then-Keeps spent k k' h same = refl

-- What is known of a run that ended so.
pub returned :
    {S A : Type 0} {P : A → Machine S → Type 0} {o : Out S A} (a : A) (m : Machine S)
    → o ≡ ok a m
    → Returns P o
    → P a m
returned {P} a m e r = given (subst (Returns P) e r)
  where
    given : Returns P (ok a m) → P a m
    given (returns p) = p

-- A sequence that ended so has passed through the end of its first command.
pub and_then-ok :
    {S A B : Type 0} (o : Out S A) (k : A → Cmd S B) (b : B) (n : Machine S)
    → and_then o k ≡ ok b n
    → (a : A) × (m : Machine S) × (o ≡ ok a m) × (k a m ≡ ok b n)
and_then-ok (ok a m) k b n e = (a, m, refl, e)
and_then-ok fault k b n e = absurd (cc)
and_then-ok spent k b n e = absurd (cc)

pub ok-injective : {S A : Type 0} {a b : A} {m n : Machine S} → ok a m ≡ ok b n → (a ≡ b) × (m ≡ n)
ok-injective e = (cc, cc)

-- The machine that a run ends in, or the other one.
abbrev pub machine_of : {S A : Type 0} → Out S A → Machine S → Machine S
machine_of (ok a n) m = n
machine_of fault m = m
machine_of spent m = m
