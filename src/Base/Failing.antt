-- ===== src/Base/Failing.antt =====
-- How a run of the program can end: with a value, by `os.Exit(1)` behind a message, or by a panic.
use Prim.Native.String.{String}
use mathlib.Core.Path.{◌≡◌, refl, ap, subst}
use mathlib.Core.Logic.{◌≢◌}

pub data Failure : Type 0 where
  exit : String → Failure
  panic : String → Failure
  -- The fuel of a model's loop is used up. No code of the program does this.
  diverge : Failure

pub data Result {ℓ} (A : Type ℓ) : Type ℓ where
  ok : A → Result A
  fail : Failure → Result A

infixl 5 ◌>>=◌ ◌>>◌
abbrev pub ◌>>=◌ {ℓ κ} : {A : Type ℓ} {B : Type κ} → Result A → (A → Result B) → Result B
ok a >>= f = f a
fail e >>= f = fail e

abbrev pub ◌>>◌ {ℓ} : {B : Type ℓ} → Result (Unit {0}) → Result B → Result B
m >> k = m >>= λ _. k

pub >>=-eq-ok {ℓ κ} :
    {X : Type ℓ} {Y : Type κ} (r : Result X) (k : X → Result Y) {y : Y}
    → (r >>= k) ≡ ok y
    → (x : X) × (r ≡ ok x) × (k x ≡ ok y)
>>=-eq-ok (ok x) k h = (x, refl, h)
>>=-eq-ok (fail e) k h = cc

ok_inj {ℓ} : {A : Type ℓ} {a b : A} → ok a ≡ ok b → a ≡ b
ok_inj e = cc

fail_inj {ℓ} : {A : Type ℓ} {d e : Failure} → ◌≡◌ {A = Result A} (fail d) (fail e) → d ≡ e
fail_inj p = cc

-- What holds of a result holds of the same result under another name.
pub ok-elim {ℓ κ} : {A : Type ℓ} (P : A → Type κ) {a b : A} → ok a ≡ ok b → P a → P b
ok-elim P e p = subst P (ok_inj e) p

-- The run ends: no loop of the model is out of fuel.
abbrev pub Ends {ℓ} : {A : Type ℓ} → Result A → Type ℓ
Ends r = r ≢ fail diverge

pub Ends-bind {ℓ} :
    {A B : Type ℓ} (m : Result A) (f : A → Result B)
    → Ends m
    → ((a : A) → m ≡ ok a → Ends (f a))
    → Ends (m >>= f)
Ends-bind (ok a) f h k = k a refl
Ends-bind (fail e) f h k = λ p. h (ap fail (fail_inj p))

pub Ends-ok {ℓ} : {A : Type ℓ} (a : A) → Ends (ok a)
Ends-ok a e = cc

pub bind_assoc {ℓ κ λ'} :
    {X : Type ℓ} {Y : Type κ} {Z : Type λ'} (r : Result X) (f : X → Result Y) (g : Y → Result Z)
    → ((r >>= f) >>= g) ≡ (r >>= λ x. f x >>= g)
bind_assoc (ok x) f g = refl
bind_assoc (fail e) f g = refl

pub bind_cong {ℓ κ} :
    {X : Type ℓ} {Y : Type κ} (r : Result X) {f g : X → Result Y}
    → ((x : X) → f x ≡ g x)
    → (r >>= f) ≡ (r >>= g)
bind_cong (ok x) h = h x
bind_cong (fail e) h = refl
