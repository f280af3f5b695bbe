-- ===== src/Common/Loops.antt =====
-- `for … range` loops over a list, with a state; `loop?` may panic.
use mathlib.Core.Path.{◌≡◌, refl, sym, ap, ◌∙◌, subst}
use mathlib.Core.List.{List, [], ◌∷◌, ◌++◌}
use mathlib.Core.Option.{Option, none, some}
use goteth.Common.Tests.{◌>>=◌, >>=-eq-some, some_inj}

module _ {ℓ κ} {S : Type ℓ} {A : Type κ} where
  abbrev pub loop : (S → A → S) → S → List A → S
  loop f s [] = s
  loop f s (a ∷ as') = loop f (f s a) as'

  abbrev pub loop? : (S → A → Option S) → S → List A → Option S
  loop? f s [] = some s
  loop? f s (a ∷ as') = f s a >>= λ t. loop? f t as'

module _ {ℓ κ} {S : Type ℓ} {A : Type κ} where
  pub loop-append :
      (f : S → A → S) (s : S) (xs ys : List A) → loop f s (xs ++ ys) ≡ loop f (loop f s xs) ys
  loop-append f s [] ys = refl
  loop-append f s (x ∷ xs) ys = loop-append f (f s x) xs ys

-- An invariant that every round keeps holds at the end.
module _ {ℓ κ μ} {S : Type ℓ} {A : Type κ} (P : S → Type μ) where
  pub loop_inv :
      (f : S → A → S)
      → ((s : S) (a : A) → P s → P (f s a))
      → (s : S) (xs : List A) → P s
      → P (loop f s xs)
  loop_inv f keep s [] p = p
  loop_inv f keep s (x ∷ xs) p = loop_inv f keep (f s x) xs (keep s x p)

  pub loop?_inv :
      (f : S → A → Option S)
      → ((s : S) (a : A) (t : S) → P s → f s a ≡ some t → P t)
      → (s : S) (xs : List A) (t : S) → P s
      → loop? f s xs ≡ some t
      → P t
  loop?_inv f keep s [] t p e = subst P (some_inj e) p
  loop?_inv f keep s (x ∷ xs) t p e =
      let (u, first, rest) = >>=-eq-some (f s x) (λ v. loop? f v xs) e in
      loop?_inv f keep u xs t (keep s x u p first) rest

pub bind_swap {ℓ κ} :
    {S : Type ℓ} {T : Type κ} (g : S → S) (o : Option S) (k l : S → Option T)
    → ((t : S) → k (g t) ≡ l t)
    → ((o >>= λ t. some (g t)) >>= k) ≡ (o >>= l)
bind_swap g none k l h = refl
bind_swap g (some t) k l h = h t

bind_assoc {ℓ κ} :
    {S : Type ℓ} {T : Type κ} (o : Option S) (k : S → Option T) (g : T → T)
    → ((o >>= k) >>= λ t. some (g t)) ≡ (o >>= λ s. k s >>= λ t. some (g t))
bind_assoc none k g = refl
bind_assoc (some s) k g = refl

-- A map of states that commutes with every round commutes with the loop.
pub loop?_commute {ℓ κ} :
    {S : Type ℓ} {A : Type κ} (g : S → S) (f : S → A → Option S)
    → ((s : S) (a : A) → f (g s) a ≡ (f s a >>= λ t. some (g t)))
    → (s : S) (xs : List A) → loop? f (g s) xs ≡ (loop? f s xs >>= λ t. some (g t))
loop?_commute g f h s [] = refl
loop?_commute g f h s (x ∷ xs) =
    ap (λ o. o >>= λ u. loop? f u xs) (h s x)
    ∙ (bind_swap g (f s x) (λ u. loop? f u xs) (λ u. loop? f u xs >>= λ t. some (g t))
          (λ t. loop?_commute g f h t xs)
        ∙ sym (bind_assoc (f s x) (λ u. loop? f u xs) g))
