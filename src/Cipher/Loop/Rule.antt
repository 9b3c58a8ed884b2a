-- ===== src/Cipher/Loop/Rule.antt =====
-- The proof rule for the loops of the cipher device: an invariant and a measure.
use advanced_unix_ceng.Base.{ℕ, zero, suc, ◌<◌, ◌≤◌, ◌≡◌, ap, arith}
use advanced_unix_ceng.Cipher.Device.{Reply}
use mathlib.Core.Path.{subst}
use advanced_unix_ceng.Cipher.Loop.{
  Next, continue, stop, crash, Outcome, done, fault, out_of_fuel, loop,
}

-- `C` says what is known when the code does something undefined: `⊥` if it never does.
abbrev pub Settles : {A : Type 0} → Type 0 → (A → Type 0) → Outcome A → Type 0
Settles C P (done a) = P a
Settles C P fault = C
Settles C P out_of_fuel = ⊥

result_or : {A : Type 0} → A → Outcome A → A
result_or d (done a) = a
result_or d fault = d
result_or d out_of_fuel = d

done-injective : {A : Type 0} {a b : A} → done a ≡ done b → a ≡ b
unfolding result_or
done-injective {a} e = ap (result_or a) e

module _ {S : Type 0} (C : Type 0) (P : S → Type 0) (Q : S → Reply → Type 0) (measure : S → ℕ) where
  -- One round from a state of measure `n` keeps the invariant and makes progress.
  abbrev pub Advances : ℕ → Next S → Type 0
  Advances n (continue s) = P s × (measure s < n)
  Advances n (stop s r) = Q s r
  Advances n crash = C

  abbrev Ends : S × Reply → Type 0
  Ends e = Q e.0 e.1

  round :
      (step : S → Next S) (fuel n : ℕ) (next : Next S)
      → ((s : S) → P s → measure s < fuel → Settles C Ends (loop step fuel s))
      → n ≤ fuel
      → Advances n next
      → Settles C Ends
          (elim next [ continue s' ↦ loop step fuel s' | stop s' r ↦ done (s', r) | crash ↦ fault ])
  round step fuel n (continue s) rest h (p, m) = rest s p (omega arith)
  round step fuel n (stop s r) rest h q = q
  round step fuel n crash rest h c = c

  pub loop-Settles :
      (step : S → Next S)
      → ((s : S) → P s → Advances (measure s) (step s))
      → (fuel : ℕ) (s : S) → P s
      → measure s < fuel
      → Settles C (λ e. Q e.0 e.1) (loop step fuel s)
  unfolding loop
  loop-Settles step keep zero s p m = absurd (omega arith)
  loop-Settles step keep (suc fuel) s p m =
      round step fuel (measure s) (step s) (loop-Settles step keep fuel) (omega arith) (keep s p)

-- What is known of every outcome is known of what was returned.
pub settled :
    {A : Type 0} (P : A → Type 0) (o : Outcome A) (a : A) → Settles Unit P o → o ≡ done a → P a
settled P (done b) a h e = subst P (done-injective e) h
settled P fault a h e = cc
settled P out_of_fuel a h e = cc

pub Settles-map :
    {A : Type 0} (C : Type 0) (P Q : A → Type 0) (o : Outcome A)
    → ((a : A) → P a → Q a)
    → Settles C P o
    → Settles C Q o
Settles-map C P Q (done a) f h = f a h
Settles-map C P Q fault f h = h
Settles-map C P Q out_of_fuel f h = h

-- A further invariant, for a loop whose progress is known.
module _ {S : Type 0} (P P' : S → Type 0) (Q Q' : S → Reply → Type 0) (measure : S → ℕ) where
  abbrev pub Follows : Next S → Type 0
  Follows (continue s) = P' s
  Follows (stop s r) = Q' s r
  Follows crash = Unit {0}

  pub Advances-and :
      (n : ℕ) (next : Next S)
      → Advances Unit P Q measure n next
      → Follows next
      → Advances Unit (λ s. P s × P' s) (λ s r. Q s r × Q' s r) measure n next
  Advances-and n (continue s) a f = ((a.0, f), a.1)
  Advances-and n (stop s r) a f = (a, f)
  Advances-and n crash a f = tt

pub Settles-and :
    {A : Type 0} (C : Type 0) (P Q : A → Type 0) (o : Outcome A)
    → Settles C P o
    → Settles C Q o
    → Settles C (λ a. P a × Q a) o
Settles-and C P Q (done a) h k = (h, k)
Settles-and C P Q fault h k = h
Settles-and C P Q out_of_fuel h k = h

-- A round that is known.
pub loop-continue :
    {S : Type 0} (step : S → Next S) (fuel : ℕ) (s s' : S)
    → step s ≡ continue s'
    → loop step (suc fuel) s ≡ loop step fuel s'
unfolding loop
loop-continue step fuel s s' e = rw (e, loop)

pub loop-crash :
    {S : Type 0} (step : S → Next S) (fuel : ℕ) (s : S)
    → step s ≡ crash
    → loop step (suc fuel) s ≡ fault
unfolding loop
loop-crash step fuel s e = rw (e, loop)

pub loop-stop :
    {S : Type 0} (step : S → Next S) (fuel : ℕ) (s s' : S) (r : Reply)
    → step s ≡ stop s' r
    → loop step (suc fuel) s ≡ done (s', r)
unfolding loop
loop-stop step fuel s s' r e = rw (e, loop)
