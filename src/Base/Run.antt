-- ===== src/Base/Run.antt =====
-- How a C function runs: over an explicit state, to a result, or to a fault.
use mathlib.Core.Path.{◌≡◌, refl}
use mathlib.Core.Bool.{Bool, true, false}
use cosemlib.Base.Tests.{if◌then◌else◌}
use mathlib.Core.Option.{Option, none, some}

-- `fault` stands for undefined behaviour (an access outside an object) and for a failed assertion.
pub data Exec (S A : Type 0) : Type 0 where
  ret : A → S → Exec S A
  fault : Exec S A

abbrev pub M : Type 0 → Type 0 → Type 0
M S A = S → Exec S A

abbrev pub pure : {S A : Type 0} → A → M S A
pure a s = ret a s

abbrev pub crash : {S A : Type 0} → M S A
crash s = fault

abbrev pub bind_exec : {S A B : Type 0} → Exec S A → (A → M S B) → Exec S B
bind_exec (ret a s) f = f a s
bind_exec fault f = fault

infixl 5 ◌>>=◌ ◌>>◌
abbrev pub ◌>>=◌ : {S A B : Type 0} → M S A → (A → M S B) → M S B
◌>>=◌ m f s = bind_exec (m s) f

abbrev pub ◌>>◌ : {S A B : Type 0} → M S A → M S B → M S B
m >> k = m >>= λ _. k

-- The state, and its replacement.
abbrev pub get : {S : Type 0} → M S S
get s = ret s s

abbrev pub put : {S : Type 0} → S → M S (Unit {0})
put s' s = ret tt s'

abbrev pub when : {S A : Type 0} → Bool → M S A → M S A → M S A
when true m k = m
when false m k = k

-- `valid = valid && next()`: what follows a failure is not run.
infixr 6 ◌&&&◌
abbrev pub ◌&&&◌ : {S : Type 0} → M S Bool → M S Bool → M S Bool
m &&& k = m >>= λ valid. when valid k (pure false)

-- `valid = valid && read(&x)` where what follows uses `x`.
infixr 6 ◌&&>◌
abbrev pub ◌&&>◌ : {S A : Type 0} → M S (Option A) → (A → M S Bool) → M S Bool
m &&> f = m >>= λ r. elim r [ none ↦ pure false | some x ↦ f x ]

-- The run does not fault, and its result and final state are as `P` says.
abbrev pub Returns : {S A : Type 0} → Exec S A → (A → S → Type 0) → Type 0
Returns (ret a s) P = P a s
Returns fault P = ⊥

-- A run in two steps.
pub Returns-bind :
    {S A B : Type 0} {P : A → S → Type 0} (Q : B → S → Type 0) (r : Exec S A) (f : A → M S B)
    → Returns r P
    → ((a : A) (s : S) → P a s → Returns (f a s) Q)
    → Returns (bind_exec r f) Q
Returns-bind Q (ret a s) f h k = k a s h
Returns-bind Q fault f h k = elim h [ ]

pub Returns-map :
    {S A : Type 0} {P : A → S → Type 0} (Q : A → S → Type 0) (r : Exec S A)
    → Returns r P
    → ((a : A) (s : S) → P a s → Q a s)
    → Returns r Q
Returns-map Q (ret a s) h k = k a s h
Returns-map Q fault h k = elim h [ ]

-- A run in two steps that ends has a first step that ends.
pub bind_exec-ret :
    {S A B : Type 0} (r : Exec S A) (f : A → M S B) {b : B} {t : S}
    → bind_exec r f ≡ ret b t
    → (a : A) × (s : S) × (r ≡ ret a s) × (f a s ≡ ret b t)
bind_exec-ret (ret a s) f h = (a, s, refl, h)
bind_exec-ret fault f h = cc

pub Returns-if :
    {S A : Type 0} (Q : A → S → Type 0) (t : Bool) (m k : M S A) (s : S)
    → (t ≡ true → Returns (m s) Q)
    → (t ≡ false → Returns (k s) Q)
    → Returns ((if t then m else k) s) Q
Returns-if Q true m k s h g = h refl
Returns-if Q false m k s h g = g refl
