-- ===== src/Base/Search.antt =====
-- The first index at which a test holds: `for (i = 0; i < N; i++) if (p(x[i])) return i; return -1;`.
use Prim.Native.Nat.{ℕ, zero, suc, ◌+◌, ◌≤◌, ◌<◌}
use mathlib.Core.Path.{◌≡◌, refl, subst}
use mathlib.Core.Bool.{Bool, true, false}
use mathlib.Core.List.{List, [], ◌∷◌}
use mathlib.Core.Logic.{◌≢◌}
use mathlib.Core.Option
use mathlib.Core.Option.{Option, none, some}
use native.Mathlib.Omega.{arith}
use over.Base.Tests.{if◌then◌else◌}
use over.Base.Lists.{get_elem?}

module _ {ℓ} {A : Type ℓ} (p : A → Bool) where
  unfoldable pub find_index : List A → Option ℕ
  find_index [] = none
  find_index (x ∷ xs) = if p x then some 0 else Option.map suc (find_index xs)

  -- The index found is the first one at which the test holds.
  pub record IsFirst (xs : List A) (i : ℕ) : Type ℓ where
    pub item : A
    pub holds : get_elem? xs i ≡ some item
    pub passes : p item ≡ true
    pub first : (j : ℕ) (x : A) → j < i → get_elem? xs j ≡ some x → p x ≡ false

  pub find_index-none :
      (xs : List A) → find_index xs ≡ none → (j : ℕ) (x : A) → get_elem? xs j ≡ some x → p x ≡ false
  unfolding find_index
  find_index-none [] e j x h = absurd (cc)
  find_index-none (y ∷ ys) e zero x h = ground arith
  find_index-none (y ∷ ys) e (suc j) x h = find_index-none ys (ground arith) j x h

  find_index-zero : (y : A) (ys : List A) → find_index (y ∷ ys) ≡ some 0 → p y ≡ true
  unfolding find_index
  find_index-zero y ys e = ground arith

  find_index-suc :
      (y : A) (ys : List A) (i : ℕ)
      → find_index (y ∷ ys) ≡ some (suc i)
      → (p y ≡ false) × (find_index ys ≡ some i)
  unfolding find_index
  find_index-suc y ys i e = ground arith

  pub find_index-some : (xs : List A) (i : ℕ) → find_index xs ≡ some i → IsFirst xs i
  unfolding find_index
  find_index-some [] i e = absurd (cc)
  find_index-some (y ∷ ys) zero e = record {
    item = y;
    holds = refl;
    passes = find_index-zero y ys e;
    first = λ j x h. absurd (omega arith);
  }
  find_index-some (y ∷ ys) (suc i) e =
      let (miss, rest) = find_index-suc y ys i e in
      let r = find_index-some ys i rest in
      record { item = r.item; holds = r.holds; passes = r.passes; first = go miss r }
    where
      go :
          p y ≡ false
          → IsFirst ys i
          → (j : ℕ) (x : A) → j < suc i
          → get_elem? (y ∷ ys) j ≡ some x
          → p x ≡ false
      go miss r zero x lt h = ground arith
      go miss r (suc j) x lt h = r.first j x (omega arith) h

  -- The other way round: an index with these facts is the one found.
  pub find_index-eq :
      (xs : List A) (i : ℕ) (a : A)
      → get_elem? xs i ≡ some a
      → p a ≡ true
      → ((j : ℕ) (x : A) → j < i → get_elem? xs j ≡ some x → p x ≡ false)
      → find_index xs ≡ some i
  unfolding find_index
  find_index-eq [] i a h t before = absurd (cc)
  find_index-eq (y ∷ ys) zero a h t before = ground arith
  find_index-eq (y ∷ ys) (suc i) a h t before = ground (
    arith,
    before 0 y (omega arith) refl,
    find_index-eq ys i a h t (λ j x lt e. before (suc j) x (omega arith) e),
  )

  -- Where some item passes the search does not fail.
  pub find_index-total :
      (xs : List A) (j : ℕ) (a : A) → get_elem? xs j ≡ some a → p a ≡ true → find_index xs ≢ none
  find_index-total xs j a h t e = absurd (ground (arith, find_index-none xs e j a h))

  -- The item found passes the test, read off the list.
  pub passes_at :
      {xs : List A} {i : ℕ} (r : IsFirst xs i) {a : A} → get_elem? xs i ≡ some a → p a ≡ true
  passes_at r {a} h = let e : r.item ≡ a = cc (r.holds, h) in subst (λ x. p x ≡ true) e r.passes

-- A test at each of `count` numbers from `start` on, by evaluation.
unfoldable pub holds_from : (ℕ → Bool) → ℕ → ℕ → Bool
holds_from p start zero = true
holds_from p start (suc count) = if p start then holds_from p (suc start) count else false

pub holds_from-at :
    (p : ℕ → Bool) (start count i : ℕ)
    → holds_from p start count ≡ true
    → start ≤ i
    → i < start + count
    → p i ≡ true
unfolding holds_from
holds_from-at p start zero i h low high = absurd (omega arith)
holds_from-at p start (suc count) i h low high = grind (arith, holds_from-at p (suc start) count i)
