-- ===== src/Prelude/Exec.antt =====
-- Calls that change a state and may throw: what was changed before a throw stays changed.
use mathlib.Core.Bool.{Bool, true, false}
use jonoondb.Prelude.Outcome.{Outcome, ok, throw, is_fault}

infixl 5 ◌▷◌
abbrev pub ◌▷◌ {ℓ κ ρ} :
    {S : Type ℓ} {A : Type κ} {B : Type ρ} → Outcome A × S → (A → S → Outcome B × S) → Outcome B × S
(ok a, s) ▷ f = f a s
(throw e, s) ▷ f = (throw e, s)

abbrev pub unless_fault {ℓ} : {S : Type ℓ} → Bool → S → S → S
unless_fault true s handled = s
unless_fault false s handled = handled

-- `try { ... } catch (...) { handler; throw; }`. No handler runs after a write outside of a mapping.
abbrev pub on_throw {ℓ κ} : {S : Type ℓ} {A : Type κ} → Outcome A × S → (S → S) → Outcome A × S
on_throw (ok a, s) handler = (ok a, s)
on_throw (throw e, s) handler = (throw e, unless_fault (is_fault e) s (handler s))
