-- ===== src/Common/Actions.antt =====
-- Code that changes a state and may fail. The state comes back after a failure too, since what
-- was done stays done.
use mathlib.Core.Option.{Option, none, some}

pub data Result (E : Type 0) (A : Type 0) : Type 0 where
  ok : A → Result E A
  err : E → Result E A

abbrev pub Action : Type 0 → Type 0 → Type 0 → Type 0
Action S E A = S → Result E A × S

-- What a call that returns nothing but an error gives.
abbrev pub check : {E : Type 0} → Option E → Result E (Unit {0})
check none = ok tt
check (some e) = err e

module _ {S E : Type 0} where
  abbrev pub pure : {A : Type 0} → A → Action S E A
  pure a s = (ok a, s)

  abbrev pub raise : {A : Type 0} → E → Action S E A
  raise e s = (err e, s)

  abbrev pub gets : {A : Type 0} → (S → A) → Action S E A
  gets f s = (ok (f s), s)

  abbrev pub modify : (S → S) → Action S E (Unit {0})
  modify f s = (ok tt, f s)

  infixl 5 ◌>>=◌ ◌>>◌
  abbrev pub ◌>>=◌ : {A B : Type 0} → Action S E A → (A → Action S E B) → Action S E B
  ◌>>=◌ m f s = let (r, s') = m s in elim r [ ok a ↦ f a s' | err e ↦ (err e, s') ]

  abbrev pub ◌>>◌ : {A B : Type 0} → Action S E A → Action S E B → Action S E B
  m >> k = m >>= λ _. k

-- A handler that may do more before the error is passed on, changed or dropped.
abbrev pub on_error : {S E F A : Type 0} → Action S E A → (E → Action S F A) → Action S F A
on_error m f s = let (r, s') = m s in elim r [ ok a ↦ (ok a, s') | err e ↦ f e s' ]
