-- ===== src/Base/Steps.antt =====
-- Rules for stateful code, a step at a time. `P` is to hold of the state that the code leaves, on
-- every path: it holds before the step, and the rest of the code is proved from what the step gave.
use mathlib.Core.Path.{◌≡◌, refl}
use mathlib.Core.Bool.{Bool, true, false}
use mathlib.Core.Option.{Option, none, some}
use package.passwall_server.Base.Outcome.{
  Error, Result, ok, err, M, map_error, after, require, lift, commit, commit_value, map_outcome,
  drop_error, or_fail,
}

module _ {κ} {S A B : Type 0} (P : S → Type κ) where
  -- A call that leaves the state alone.
  pub lift_step :
      (m : Result A) (f : A → M S B) (s : S)
      → P s
      → ((a : A) → m ≡ ok a → P (f a s).1)
      → P (after (lift m s) f).1
  unfolding after lift
  lift_step (ok a) f s h k = k a refl
  lift_step (err e) f s h k = h

  -- The same, with its error rewritten.
  pub lift_error_step :
      (g : Error → Error) (m : Result A) (f : A → M S B) (s : S)
      → P s
      → ((a : A) → m ≡ ok a → P (f a s).1)
      → P (after (map_outcome g (lift m s)) f).1
  unfolding after lift map_outcome
  lift_error_step g (ok a) f s h k = k a refl
  lift_error_step g (err e) f s h k = h

  pub or_fail_step :
      (o : Option A) (e : Error) (f : A → M S B) (s : S)
      → P s
      → ((a : A) → o ≡ some a → P (f a s).1)
      → P (after (or_fail o e s) f).1
  unfolding after or_fail
  or_fail_step none e f s h k = h
  or_fail_step (some a) e f s h k = k a refl

  -- A write that gives a value.
  pub create_step :
      (g : Error → Error) (r : Result (A × S)) (f : A → M S B) (s : S)
      → P s
      → ((a : A) (s' : S) → r ≡ ok (a, s') → P (f a s').1)
      → P (after (map_outcome g (commit_value r s)) f).1
  unfolding after commit_value map_outcome
  create_step g (ok (a, s')) f s h k = k a s' refl
  create_step g (err e) f s h k = h

  -- Any call, by what it does to the state.
  pub call_step :
      (m : Result A × S) (f : A → M S B)
      → P m.1
      → ((a : A) → m.0 ≡ ok a → P (f a m.1).1)
      → P (after m f).1
  unfolding after
  call_step (ok a, s) f h k = k a refl
  call_step (err e, s) f h k = h

  pub call_error_step :
      (g : Error → Error) (m : Result A × S) (f : A → M S B)
      → P m.1
      → ((a : A) → m.0 ≡ ok a → P (f a m.1).1)
      → P (after (map_outcome g m) f).1
  unfolding after map_outcome
  call_error_step g (ok a, s) f h k = k a refl
  call_error_step g (err e, s) f h k = h

  pub logged_call_step :
      (m : Result A × S) (f : Unit {0} → M S B) → P (f tt m.1).1 → P (after (drop_error m) f).1
  unfolding after drop_error
  logged_call_step (r, s) f k = k

  -- A call that turns out to leave the state alone.
  pub same_step :
      (m : Result A × S) (f : A → M S B) (s : S)
      → m.1 ≡ s
      → P s
      → ((a : A) → m.0 ≡ ok a → P (f a s).1)
      → P (after m f).1
  unfolding after
  same_step (ok a, s') f s e h k = rw e (k a refl)
  same_step (err e', s') f s e h k = rw e h

  pub same_error_step :
      (g : Error → Error) (m : Result A × S) (f : A → M S B) (s : S)
      → m.1 ≡ s
      → P s
      → ((a : A) → m.0 ≡ ok a → P (f a s).1)
      → P (after (map_outcome g m) f).1
  unfolding after map_outcome
  same_error_step g (ok a, s') f s e h k = rw e (k a refl)
  same_error_step g (err e', s') f s e h k = rw e h

module _ {κ} {S B : Type 0} (P : S → Type κ) where
  pub require_step :
      (b : Bool) (e : Error) (f : Unit {0} → M S B) (s : S)
      → P s
      → (b ≡ true → P (f tt s).1)
      → P (after (require b e s) f).1
  unfolding after require
  require_step true e f s h k = k refl
  require_step false e f s h k = h

  pub write_step :
      (r : Result S) (f : Unit {0} → M S B) (s : S)
      → P s
      → ((s' : S) → r ≡ ok s' → P (f tt s').1)
      → P (after (commit r s) f).1
  unfolding after commit
  write_step (ok s') f s h k = k s' refl
  write_step (err e) f s h k = h

  pub write_error_step :
      (g : Error → Error) (r : Result S) (f : Unit {0} → M S B) (s : S)
      → P s
      → ((s' : S) → r ≡ ok s' → P (f tt s').1)
      → P (after (map_outcome g (commit r s)) f).1
  unfolding after commit map_outcome
  write_error_step g (ok s') f s h k = k s' refl
  write_error_step g (err e) f s h k = h

  -- A write whose error is only logged.
  pub logged_step :
      (r : Result S) (f : Unit {0} → M S B) (s : S)
      → P (f tt s).1
      → ((s' : S) → r ≡ ok s' → P (f tt s').1)
      → P (after (drop_error (commit r s)) f).1
  unfolding after commit drop_error
  logged_step (ok s') f s k l = l s' refl
  logged_step (err e) f s k l = k

module _ {κ} {S : Type 0} (P : S → Type κ) where
  -- A write that ends the code.
  pub commit_step : (r : Result S) (s : S) → P s → ((s' : S) → r ≡ ok s' → P s') → P (commit r s).1
  unfolding commit
  commit_step (ok s') s h k = k s' refl
  commit_step (err e) s h k = h

  -- The same, with its error rewritten.
  pub commit_error_step :
      (g : Error → Error) (r : Result S) (s : S)
      → P s
      → ((s' : S) → r ≡ ok s' → P s')
      → P (map_outcome g (commit r s)).1
  unfolding commit map_outcome
  commit_error_step g (ok s') s h k = k s' refl
  commit_error_step g (err e) s h k = h

  pub logged_commit_step :
      (r : Result S) (s : S) → P s → ((s' : S) → r ≡ ok s' → P s') → P (drop_error (commit r s)).1
  unfolding commit drop_error
  logged_commit_step (ok s') s h k = k s' refl
  logged_commit_step (err e) s h k = h

  pub create_end_step :
      {A : Type 0} (g : Error → Error) (r : Result (A × S)) (s : S)
      → P s
      → ((a : A) (s' : S) → r ≡ ok (a, s') → P s')
      → P (map_outcome g (commit_value r s)).1
  unfolding commit_value map_outcome
  create_end_step g (ok (a, s')) s h k = k a s' refl
  create_end_step g (err e) s h k = h

-- What a successful run went through.
pub map_error_ok {ℓ} :
    {A : Type ℓ} (g : Error → Error) (m : Result A) {a : A} → map_error g m ≡ ok a → m ≡ ok a
map_error_ok g (ok b) h = h
map_error_ok g (err e) h = cc

pub require-same : {S : Type 0} (b : Bool) (e : Error) (s : S) → (require b e s).1 ≡ s
unfolding require
require-same true e s = refl
require-same false e s = refl
