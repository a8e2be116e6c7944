-- ===== src/Base/Success.antt =====
-- Rules for what a successful run of stateful code tells: `Q` is to hold of the value and the state
-- if the run succeeds.
use mathlib.Core.Path.{◌≡◌, refl, subst}
use mathlib.Core.Bool.{Bool, true, false}
use mathlib.Core.Option.{Option, none, some}
use package.passwall_server.Base.Outcome.{
  Error, Result, ok, err, ok-injective, M, after, require, lift, commit, commit_value, map_outcome,
  drop_error, or_fail, into, map_result,
}

abbrev pub OnSuccess {κ} : {S A : Type 0} → (A → S → Type κ) → Result A × S → Type κ
OnSuccess Q (ok a, s) = Q a s
OnSuccess Q (err e, s) = Unit

pub on_success {κ} :
    {S A : Type 0} (Q : A → S → Type κ) (o : Result A × S) (a : A) (s : S)
    → OnSuccess Q o
    → o ≡ (ok a, s)
    → Q a s
on_success Q o a s q h = subst (OnSuccess Q) h q

module _ {κ} {S A B : Type 0} (Q : B → S → Type κ) where
  pub lift_success :
      (m : Result A) (f : A → M S B) (s : S)
      → ((a : A) → m ≡ ok a → OnSuccess Q (f a s))
      → OnSuccess Q (after (lift m s) f)
  unfolding after lift
  lift_success (ok a) f s k = k a refl
  lift_success (err e) f s k = tt

  pub lift_error_success :
      (g : Error → Error) (m : Result A) (f : A → M S B) (s : S)
      → ((a : A) → m ≡ ok a → OnSuccess Q (f a s))
      → OnSuccess Q (after (map_outcome g (lift m s)) f)
  unfolding after lift map_outcome
  lift_error_success g (ok a) f s k = k a refl
  lift_error_success g (err e) f s k = tt

  pub or_fail_success :
      (o : Option A) (e : Error) (f : A → M S B) (s : S)
      → ((a : A) → o ≡ some a → OnSuccess Q (f a s))
      → OnSuccess Q (after (or_fail o e s) f)
  unfolding after or_fail
  or_fail_success none e f s k = tt
  or_fail_success (some a) e f s k = k a refl

  pub create_success :
      (g : Error → Error) (r : Result (A × S)) (f : A → M S B) (s : S)
      → ((a : A) (s' : S) → r ≡ ok (a, s') → OnSuccess Q (f a s'))
      → OnSuccess Q (after (map_outcome g (commit_value r s)) f)
  unfolding after commit_value map_outcome
  create_success g (ok (a, s')) f s k = k a s' refl
  create_success g (err e) f s k = tt

  pub call_success :
      (m : Result A × S) (f : A → M S B)
      → ((a : A) (s' : S) → m ≡ (ok a, s') → OnSuccess Q (f a s'))
      → OnSuccess Q (after m f)
  unfolding after
  call_success (ok a, s) f k = k a s refl
  call_success (err e, s) f k = tt

  -- A call whose error is only logged.
  pub logged_call_success :
      (m : Result A × S) (f : Unit {0} → M S B)
      → OnSuccess Q (f tt m.1)
      → OnSuccess Q (after (drop_error m) f)
  unfolding after drop_error
  logged_call_success (r, s) f k = k

module _ {κ} {S B : Type 0} (Q : B → S → Type κ) where
  pub require_success :
      (b : Bool) (e : Error) (f : Unit {0} → M S B) (s : S)
      → (b ≡ true → OnSuccess Q (f tt s))
      → OnSuccess Q (after (require b e s) f)
  unfolding after require
  require_success true e f s k = k refl
  require_success false e f s k = tt

  pub write_success :
      (r : Result S) (f : Unit {0} → M S B) (s : S)
      → ((s' : S) → r ≡ ok s' → OnSuccess Q (f tt s'))
      → OnSuccess Q (after (commit r s) f)
  unfolding after commit
  write_success (ok s') f s k = k s' refl
  write_success (err e) f s k = tt

  pub write_error_success :
      (g : Error → Error) (r : Result S) (f : Unit {0} → M S B) (s : S)
      → ((s' : S) → r ≡ ok s' → OnSuccess Q (f tt s'))
      → OnSuccess Q (after (map_outcome g (commit r s)) f)
  unfolding after commit map_outcome
  write_error_success g (ok s') f s k = k s' refl
  write_error_success g (err e) f s k = tt

  pub logged_success :
      (r : Result S) (f : Unit {0} → M S B) (s : S)
      → OnSuccess Q (f tt s)
      → ((s' : S) → r ≡ ok s' → OnSuccess Q (f tt s'))
      → OnSuccess Q (after (drop_error (commit r s)) f)
  unfolding after commit drop_error
  logged_success (ok s') f s k l = l s' refl
  logged_success (err e) f s k l = k

module _ {κ} {S : Type 0} (Q : Unit {0} → S → Type κ) where
  pub commit_success :
      (r : Result S) (s : S) → ((s' : S) → r ≡ ok s' → Q tt s') → OnSuccess Q (commit r s)
  unfolding commit
  commit_success (ok s') s k = k s' refl
  commit_success (err e) s k = tt

pub commit_error_success {κ} :
    {S : Type 0} (Q : Unit {0} → S → Type κ) (g : Error → Error) (r : Result S) (s : S)
    → ((s' : S) → r ≡ ok s' → Q tt s')
    → OnSuccess Q (map_outcome g (commit r s))
unfolding commit map_outcome
commit_error_success Q g (ok s') s k = k s' refl
commit_error_success Q g (err e) s k = tt

pub success_map {κ ι} :
    {S A : Type 0} (Q : A → S → Type κ) (R : A → S → Type ι) (o : Result A × S)
    → ((a : A) (s : S) → Q a s → R a s)
    → OnSuccess Q o
    → OnSuccess R o
success_map Q R (ok a, s) k q = k a s q
success_map Q R (err e, s) k q = tt

pub success_value {κ} :
    {S A : Type 0} (Q : A → Type κ) (o : Result A × S) (a : A)
    → OnSuccess (λ x _. Q x) o
    → o.0 ≡ ok a
    → Q a
success_value Q (ok x, s) a q h = subst Q (ok-injective h) q
success_value Q (err e, s) a q h = cc

module _ {κ ι} {S A B : Type 0} (Q : B → S → Type κ) (R : A → S → Type ι) where
  -- A call by what its own success tells.
  pub call_known_success :
      (m : Result A × S) (f : A → M S B)
      → OnSuccess R m
      → ((a : A) (s : S) → R a s → OnSuccess Q (f a s))
      → OnSuccess Q (after m f)
  unfolding after
  call_known_success (ok a, s) f h k = k a s h
  call_known_success (err e, s) f h k = tt

  pub call_error_success :
      (g : Error → Error) (m : Result A × S) (f : A → M S B)
      → OnSuccess R m
      → ((a : A) (s : S) → R a s → OnSuccess Q (f a s))
      → OnSuccess Q (after (map_outcome g m) f)
  unfolding after map_outcome
  call_error_success g (ok a, s) f h k = k a s h
  call_error_success g (err e, s) f h k = tt

pub require_success_end {κ} :
    {S : Type 0} (Q : Unit {0} → S → Type κ) (b : Bool) (e : Error) (s : S)
    → (b ≡ true → Q tt s)
    → OnSuccess Q (require b e s)
unfolding require
require_success_end Q true e s k = k refl
require_success_end Q false e s k = tt

pub create_end_success {κ} :
    {S A : Type 0} (Q : A → S → Type κ) (g : Error → Error) (r : Result (A × S)) (s : S)
    → ((a : A) (s' : S) → r ≡ ok (a, s') → Q a s')
    → OnSuccess Q (map_outcome g (commit_value r s))
unfolding commit_value map_outcome
create_end_success Q g (ok (a, s')) s k = k a s' refl
create_end_success Q g (err e) s k = tt

-- A write that gave a value.
pub commit_value_ok :
    {S A : Type 0} (r : Result (A × S)) (s s' : S) (a : A)
    → commit_value r s ≡ (ok a, s')
    → r ≡ ok (a, s')
unfolding commit_value
commit_value_ok (ok (b, t)) s s' a h = cc
commit_value_ok (err e) s s' a h = cc

pub commit_value_success {κ} :
    {S A : Type 0} (Q : A → S → Type κ) (r : Result (A × S)) (s : S)
    → ((a : A) (s' : S) → r ≡ ok (a, s') → Q a s')
    → OnSuccess Q (commit_value r s)
unfolding commit_value
commit_value_success Q (ok (a, s')) s k = k a s' refl
commit_value_success Q (err e) s k = tt

-- What a success tells, with what holds of the state anyway.
pub success_both {κ ι} :
    {S A : Type 0} (Q : A → S → Type κ) (P : S → Type ι) (o : Result A × S)
    → OnSuccess Q o
    → P o.1
    → OnSuccess (λ a s. Q a s × P s) o
success_both Q P (ok a, s) q p = (q, p)
success_both Q P (err e, s) q p = tt

pub success_from {κ} :
    {S A : Type 0} (Q : A → S → Type κ) (o : Result A × S)
    → ((a : A) → o.0 ≡ ok a → Q a o.1)
    → OnSuccess Q o
success_from Q (ok a, s) k = k a refl
success_from Q (err e, s) k = tt

-- A statement on one table of the state.
pub into_ok :
    {S A R : Type 0} (put : R → S) (r : Result (A × R)) (a : A) (s' : S)
    → into put r ≡ ok (a, s')
    → (x : R) × (r ≡ ok (a, x)) × (s' ≡ put x)
unfolding into
into_ok put (ok (b, x)) a s' h = (x, cc, cc)
into_ok put (err e) a s' h = cc

pub map_result_ok :
    {S R : Type 0} (put : R → S) (r : Result R) (s' : S)
    → map_result put r ≡ ok s'
    → (x : R) × (r ≡ ok x) × (s' ≡ put x)
map_result_ok put (ok x) s' h = (x, refl, cc)
map_result_ok put (err e) s' h = cc
