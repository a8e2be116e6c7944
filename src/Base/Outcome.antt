-- ===== src/Base/Outcome.antt =====
-- Go's `(T, error)` results, and the stateful code that returns them.
use Prim.Native.String.{String}
use mathlib.Core.Path.{◌≡◌}
use mathlib.Core.Bool.{Bool, true, false}
use mathlib.Core.Option.{Option, none, some}

-- internal/repository's sentinel errors, an error with a text of its own (`fmt.Errorf`, the values
-- that it formats left out), and a wrapped one (`%w`). `record_not_found` is gorm's own sentinel
-- and `failure` any other error of the database.
pub data Error : Type 0 where
  not_found forbidden invalid_input record_not_found failure : Error
  message : String → Error
  wrap : String → Error → Error

-- `errors.Is(err, repository.ErrNotFound)`, which looks through the wrapping.
abbrev pub is_not_found : Error → Bool
is_not_found not_found = true
is_not_found (wrap s e) = is_not_found e
is_not_found _ = false

-- `err == repository.ErrNotFound`, which does not.
abbrev pub eq_not_found : Error → Bool
eq_not_found not_found = true
eq_not_found _ = false

-- `errors.Is(err, gorm.ErrRecordNotFound)`.
abbrev pub is_record_not_found : Error → Bool
is_record_not_found record_not_found = true
is_record_not_found (wrap s e) = is_record_not_found e
is_record_not_found _ = false

-- The gormrepo packages' translation of gorm's sentinel into the repository's.
abbrev pub translate : Error → Error
translate e = elim (is_record_not_found e) [ true ↦ not_found | false ↦ e ]

pub data Result {ℓ} (A : Type ℓ) : Type ℓ where
  ok : A → Result A
  err : Error → Result A

pub ok-injective {ℓ} : {A : Type ℓ} {a b : A} → ok a ≡ ok b → a ≡ b
ok-injective h = cc

abbrev pub map_error {ℓ} : {A : Type ℓ} → (Error → Error) → Result A → Result A
map_error f (ok a) = ok a
map_error f (err e) = err (f e)

abbrev pub is_ok {ℓ} : {A : Type ℓ} → Result A → Bool
is_ok (ok a) = true
is_ok (err e) = false

-- Code that reads and writes a state and may return early with an error; what it wrote before the
-- error stays written.
abbrev pub M : Type 0 → Type 0 → Type 0
M S A = S → Result A × S

unfoldable pub after : {S A B : Type 0} → Result A × S → (A → M S B) → Result B × S
after (ok a, s) f = f a s
after (err e, s) f = (err e, s)

infixl 5 ◌>>=◌ ◌>>◌
abbrev pub ◌>>=◌ : {S A B : Type 0} → M S A → (A → M S B) → M S B
◌>>=◌ m f s = after (m s) f

abbrev pub ◌>>◌ : {S B : Type 0} → M S (Unit {0}) → M S B → M S B
◌>>◌ m k s = after (m s) (λ _. k)

abbrev pub pure : {S A : Type 0} → A → M S A
pure a s = (ok a, s)

abbrev pub fail : {S A : Type 0} → Error → M S A
fail e s = (err e, s)

-- `if !test { return err }`.
unfoldable pub require : {S : Type 0} → Bool → Error → M S (Unit {0})
require true e s = (ok tt, s)
require false e s = (err e, s)

-- `if p == nil { return err }`.
unfoldable pub or_fail : {S A : Type 0} → Option A → Error → M S A
or_fail none e s = (err e, s)
or_fail (some a) e s = (ok a, s)

-- A call that leaves the state alone.
unfoldable pub lift : {S A : Type 0} → Result A → M S A
lift r s = (r, s)

abbrev pub query : {S A : Type 0} → (S → Result A) → M S A
query f s = lift (f s) s

-- A write: a failed statement leaves the state as it was.
unfoldable pub commit : {S : Type 0} → Result S → M S (Unit {0})
commit (ok s') s = (ok tt, s')
commit (err e) s = (err e, s)

abbrev pub write : {S : Type 0} → (S → Result S) → M S (Unit {0})
write f s = commit (f s) s

-- A write that gives a value too.
unfoldable pub commit_value : {S A : Type 0} → Result (A × S) → M S A
commit_value (ok (a, s')) s = (ok a, s')
commit_value (err e) s = (err e, s)

-- `if err != nil { return f(err) }`, on an outcome.
unfoldable pub map_outcome : {S A : Type 0} → (Error → Error) → Result A × S → Result A × S
map_outcome f (r, s) = (map_error f r, s)

abbrev pub on_error : {S A : Type 0} → (Error → Error) → M S A → M S A
on_error f m s = map_outcome f (m s)

-- `if err := m; err != nil { log }`: the error is dropped.
unfoldable pub drop_error : {S A : Type 0} → Result A × S → Result (Unit {0}) × S
drop_error (r, s) = (ok tt, s)

abbrev pub logged : {S A : Type 0} → M S A → M S (Unit {0})
logged m s = drop_error (m s)

-- A table of the state replaced by what a statement gives.
unfoldable pub into : {S A R : Type 0} → (R → S) → Result (A × R) → Result (A × S)
into put (ok (a, r)) = ok (a, put r)
into put (err e) = err e

abbrev pub map_result {ℓ κ} : {A : Type ℓ} {B : Type κ} → (A → B) → Result A → Result B
map_result f (ok a) = ok (f a)
map_result f (err e) = err e
