-- ===== src/Cli/Options/Returns.antt =====
-- What every result of a computation of src/cli has, whatever its exceptions: the rules that take
-- a property through the steps of a function.
use url_shortener.Prelude.{◌≡◌, refl, Bool, true, false, arith, if◌then◌else◌, Bytes}
use url_shortener.Cli.Options.{Parsed, parsed, rejected, ◌>>=◌}

-- A computation whose results all have a property.
unfoldable pub Returns : {A : Type 0} → (A → Type 0) → Parsed A → Type 0
Returns {A = A} P r = (x : A) → r ≡ parsed x → P x

pub parsed-same : {A : Type 0} (x y : A) → ◌≡◌ {A = Parsed A} (parsed x) (parsed y) → y ≡ x
parsed-same x y e = cc

pub Returns-parsed : {A : Type 0} (P : A → Type 0) (x : A) → P x → Returns P (parsed x)
unfolding Returns
Returns-parsed P x h y e = rw (parsed-same x y e) h

pub Returns-rejected : {A : Type 0} (P : A → Type 0) (t : Bytes) → Returns P (rejected t)
unfolding Returns
Returns-rejected P t y e = absurd (ground arith)

pub Returns-bind :
    {A B : Type 0} (Q : A → Type 0) (P : B → Type 0) (r : Parsed A) (f : A → Parsed B)
    → Returns Q r
    → ((x : A) → Q x → Returns P (f x))
    → Returns P (r >>= f)
unfolding Returns
Returns-bind Q P (parsed x) f h k = k x (h x refl)
Returns-bind Q P (rejected t) f h k = λ y e. absurd (ground arith)

pub Returns-any : {A : Type 0} (r : Parsed A) → Returns (λ _. Unit) r
unfolding Returns
Returns-any r x e = tt

pub Returns-if :
    {A : Type 0} (P : A → Type 0) (b : Bool) (r q : Parsed A)
    → Returns P r
    → Returns P q
    → Returns P (if b then r else q)
Returns-if P true r q h k = h
Returns-if P false r q h k = k
