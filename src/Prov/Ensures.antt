-- ===== src/Prov/Ensures.antt =====
-- What holds of the result of processing a PDU, branch by branch.
use meshx.Base.{Bool, true, false, ◌≡◌, refl, Option, none, some, List, if◌then◌else◌, ◌>>=◌}
use meshx.Base.Errno.{Ret}
use meshx.Prov.{ProvDev}
use meshx.Prov.Process.{ProcessResult, Notify}

abbrev pub Ensures : (Ret → ProvDev → List Notify → Type 0) → ProcessResult → Type 0
Ensures Q none = Unit
Ensures Q (some (r, p, out)) = Q r p out

pub if-Ensures :
    (b : Bool) (Q : Ret → ProvDev → List Notify → Type 0) (x y : ProcessResult)
    → (b ≡ true → Ensures Q x)
    → (b ≡ false → Ensures Q y)
    → Ensures Q (if b then x else y)
if-Ensures true Q x y h k = h refl
if-Ensures false Q x y h k = k refl

pub bind-Ensures :
    {A : Type 0} (o : Option A) (Q : Ret → ProvDev → List Notify → Type 0) (f : A → ProcessResult)
    → ((a : A) → Ensures Q (f a))
    → Ensures Q (o >>= f)
bind-Ensures none Q f h = tt
bind-Ensures (some a) Q f h = h a
