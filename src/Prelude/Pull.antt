-- ===== src/Prelude/Pull.antt =====
-- Taking one entry out of a list, wherever it stands.
use Prim.Native.Nat.{ℕ, zero, suc}
use mathlib.Core.Path.{◌≡◌, sym, ap, ◌∙◌}
use mathlib.Core.Logic.{inl, inr}
use mathlib.Core.Option.{Option, none, some}
use mathlib.Core.List.{List, [], ◌∷◌, Perm}
use mathlib.Core.List.Perm
use xk6_sip_media.Prelude.Tests.{none_differs, subst_some, Option-cases}

module _ {A : Type 0} where
  unfoldable pub keep_head : A → Option (A × List A) → Option (A × List A)
  keep_head x none = none
  keep_head x (some (y, rest)) = some (y, x ∷ rest)

  unfoldable pub pull : ℕ → List A → Option (A × List A)
  pull i [] = none
  pull zero (x ∷ xs) = some (x, xs)
  pull (suc i) (x ∷ xs) = keep_head x (pull i xs)

  pub pull-Perm :
      (i : ℕ) (xs : List A) (y : A) (rest : List A)
      → pull i xs ≡ some (y, rest)
      → Perm xs (y ∷ rest)
  unfolding pull keep_head
  pull-Perm i [] y rest h = absurd (none_differs h)
  pull-Perm zero (x ∷ xs) y rest h =
      subst_some (λ (p : A × List A). Perm (x ∷ xs) (p.0 ∷ p.1)) (Perm.refl (x ∷ xs)) h
  pull-Perm (suc i) (x ∷ xs) y rest h = elim (Option-cases (pull i xs)) [
    | inl e ↦ absurd (none_differs (ap (keep_head x) (sym e) ∙ h))
    | inr ((z, zs), e) ↦
        let deeper = pull-Perm i xs z zs e in
        subst_some (λ (p : A × List A). Perm (x ∷ xs) (p.0 ∷ p.1))
          (Perm.trans (Perm.cons x deeper) (Perm.swap z x zs)) (ap (keep_head x) (sym e) ∙ h)
  ]
