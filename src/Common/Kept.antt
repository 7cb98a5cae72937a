-- ===== src/Common/Kept.antt =====
-- Predicates on a state that the code keeps, whether it fails or not: one rule for each way to build
-- an action.
use mathlib.Core.Path.{◌≡◌, refl}
use mathlib.Core.Bool.{Bool, true, false}
use redis_cluster_operator.Common.Tests.{if◌then◌else◌}
use redis_cluster_operator.Common.Actions.{
  Result, ok, err, Action, pure, raise, gets, modify, ◌>>=◌, on_error,
}

pub record Keeps {S E A : Type 0} (P : S → Type 0) (m : Action S E A) : Type 0 where
  pub at : (w : S) → P w → P (m w).1

pub Keeps-modify :
    {S E : Type 0} {P : S → Type 0} (f : S → S)
    → ((w : S) → P w → P (f w))
    → Keeps {E = E} {A = Unit {0}} P (modify f)
Keeps-modify f k = record { at = k }

module _ {S E A : Type 0} {P : S → Type 0} where
  pub Keeps-pure : (a : A) → Keeps {E = E} P (pure a)
  Keeps-pure a = record { at = λ w h. h }

  pub Keeps-gets : (f : S → A) → Keeps {E = E} P (gets f)
  Keeps-gets f = record { at = λ w h. h }

  pub Keeps-raise : (e : E) → Keeps P (raise {A = A} e)
  Keeps-raise e = record { at = λ w h. h }

  pub Keeps-if :
      (b : Bool) (m n : Action S E A) → Keeps P m → Keeps P n → Keeps P (if b then m else n)
  Keeps-if true m n km kn = km
  Keeps-if false m n km kn = kn

module _ {S E F A : Type 0} {P : S → Type 0} where
  after_error :
      (r : Result E A) (f : E → Action S F A) (w : S)
      → ((e : E) → Keeps P (f e))
      → P w
      → P (let q : Result F A × S = elim r [ ok a ↦ (ok a, w) | err e ↦ f e w ] in q).1
  after_error (ok a) f w k h = h
  after_error (err e) f w k h = (k e).at w h

  pub Keeps-on_error :
      (m : Action S E A) (f : E → Action S F A)
      → Keeps P m
      → ((e : E) → Keeps P (f e))
      → Keeps P (on_error m f)
  Keeps-on_error m f km kf = record {
    at = λ w h. let (r, w') = m w in after_error r f w' kf (km.at w h);
  }

module _ {S E A B : Type 0} {P : S → Type 0} where
  after :
      (r : Result E A) (f : A → Action S E B) (w : S)
      → ((a : A) → Keeps P (f a))
      → P w
      → P (let q : Result E B × S = elim r [ ok a ↦ f a w | err e ↦ (err e, w) ] in q).1
  after (ok a) f w k h = (k a).at w h
  after (err e) f w k h = h

  pub Keeps-bind :
      (m : Action S E A) (f : A → Action S E B)
      → Keeps P m
      → ((a : A) → Keeps P (f a))
      → Keeps P (m >>= f)
  Keeps-bind m f km kf = record { at = λ w h. let (r, w') = m w in after r f w' kf (km.at w h) }

-- A predicate after two steps: after the first one if it fails, else after both.
module _ {S E A B : Type 0} (R : S → Type 0) (f : A → Action S E B) where
  by_result :
      (r : Result E A) (w : S)
      → ((e : E) → r ≡ err e → R w)
      → ((a : A) → r ≡ ok a → R (f a w).1)
      → R (let q : Result E B × S = elim r [ ok a ↦ f a w | err e ↦ (err e, w) ] in q).1
  by_result (ok a) w ke ka = ka a refl
  by_result (err e) w ke ka = ke e refl

  pub after_bind :
      (m : Action S E A) (w : S)
      → ((e : E) → (m w).0 ≡ err e → R (m w).1)
      → ((a : A) → (m w).0 ≡ ok a → R (f a (m w).1).1)
      → R ((m >>= f) w).1
  after_bind m w ke ka = let (r, w') = m w in by_result r w' ke ka

-- The same where the failure of the first step is handled by a step of its own.
pub either_result :
    {S E F A B : Type 0} (R : S → Type 0) (f : A → Action S F B) (g : E → Action S F B)
    (r : Result E A) (w : S)
    → ((e : E) → r ≡ err e → R (g e w).1)
    → ((a : A) → r ≡ ok a → R (f a w).1)
    → R (let q : Result F B × S = elim r [ ok a ↦ f a w | err e ↦ g e w ] in q).1
either_result R f g (ok a) w ke ka = ka a refl
either_result R f g (err e) w ke ka = ke e refl

-- What the last step shows of a chain of steps that keep a predicate, where a failure of any of them
-- shows it too.
pub record Ends {S E A : Type 0} (P : S → Type 0) (R : Result E A × S → Type 0) (m : Action S E A)
    : Type 0 where
  pub at : (w : S) → P w → R (m w)

module _ {S E B : Type 0} (P : S → Type 0) (R : Result E B × S → Type 0)
    (fails : (e : E) (w : S) → P w → R (err e, w)) where
  by_ending :
      {A : Type 0} (r : Result E A) (w : S) (f : A → Action S E B)
      → P w
      → ((a : A) → Ends P R (f a))
      → R (elim r [ ok a ↦ f a w | err e ↦ (err e, w) ])
  by_ending (ok a) w f h k = (k a).at w h
  by_ending (err e) w f h k = fails e w h

  pub Ends-bind :
      {A : Type 0} (m : Action S E A) (f : A → Action S E B)
      → Keeps P m
      → ((a : A) → Ends P R (f a))
      → Ends P R (m >>= f)
  Ends-bind m f km kf = record { at = λ w h. let (r, w') = m w in by_ending r w' f (km.at w h) kf }

-- A step that keeps a predicate unless it fails, where a failure of it shows what the chain shows.
abbrev pub Then :
    {S E A B : Type 0} → (S → Type 0) → (Result E B × S → Type 0) → Result E A × S → Type 0
Then P R (ok a, w) = P w
Then P R (err e, w) = R (err e, w)

module _ {S E A B : Type 0} (P : S → Type 0) (R : Result E B × S → Type 0) where
  by_then :
      (r : Result E A) (w : S) (f : A → Action S E B)
      → Then P R (r, w)
      → ((a : A) → Ends P R (f a))
      → R (elim r [ ok a ↦ f a w | err e ↦ (err e, w) ])
  by_then (ok a) w f h k = (k a).at w h
  by_then (err e) w f h k = h

  pub Ends-then :
      (m : Action S E A) (f : A → Action S E B)
      → Ends P (Then P R) m
      → ((a : A) → Ends P R (f a))
      → Ends P R (m >>= f)
  Ends-then m f km kf = record { at = λ w h. let (r, w') = m w in by_then r w' f (km.at w h) kf }
