-- ===== src/Effect/Verdict.antt =====
-- What the evaluation loop answers: a matching `Deny` wins, then a matching `Allow`.
use mathlib.Core.List.{Memᴰ}
use strix.Base.{
  ◌≡◌, refl, sym, ◌↔◌, inl, inr, Bool, true, false, ◌&&◌, List, [], ◌∷◌, Option, none, some, arith,
  any, if◌then◌else◌, Bool-cases, and_iff,
}
use strix.Effect.{Effect, allow, deny, evaluate_loop}

abbrev pub is_deny : Effect → Bool
is_deny deny = true
is_deny allow = false

abbrev pub is_allow : Effect → Bool
is_allow allow = true
is_allow deny = false

-- What a policy with these matching effects has to answer.
abbrev pub verdict : (denied allowed : Bool) → Option Effect
verdict denied allowed = if denied then some deny else if allowed then some allow else none

module _ {ℓ} {S : Type ℓ} (matches : S → Bool) (effect : S → Effect) where
  abbrev denies : S → Bool
  denies s = matches s && is_deny (effect s)

  abbrev allows : S → Bool
  allows s = matches s && is_allow (effect s)

  loop_allowed :
      (ss : List S)
      → evaluate_loop matches effect ss (some allow)
        ≡ (if any denies ss then some deny else some allow)
  unfolding evaluate_loop
  loop_allowed [] = refl
  loop_allowed (s ∷ ss) = ground (arith, loop_allowed ss)

  pub evaluate_loop_lem :
      (ss : List S) → evaluate_loop matches effect ss none ≡ verdict (any denies ss) (any allows ss)
  unfolding evaluate_loop
  evaluate_loop_lem [] = refl
  evaluate_loop_lem (s ∷ ss) = ground (arith, evaluate_loop_lem ss, loop_allowed ss)

-- A statement of the list matches, and has this effect.
abbrev pub Has {ℓ} : {S : Type ℓ} → (S → Bool) → (S → Effect) → Effect → List S → Type ℓ
Has {S} matches effect e ss = (s : S) × Memᴰ s ss × (matches s ≡ true) × (effect s ≡ e)

module _ {ℓ} {S : Type ℓ} (test : S → Bool) where
  pub any_sound : (ss : List S) → any test ss ≡ true → (s : S) × Memᴰ s ss × (test s ≡ true)
  any_sound [] h = cc
  any_sound (s ∷ ss) h = elim (Bool-cases (test s)) [
    | inl t ↦ (s, Memᴰ.head refl, t)
    | inr n ↦ let (u, m, t) = any_sound ss (ground arith) in (u, Memᴰ.tail m, t)
  ]

  pub any_complete : {s : S} {ss : List S} → Memᴰ s ss → test s ≡ true → any test ss ≡ true
  any_complete (Memᴰ.head {x} e) h = let h' : test x ≡ true = rw (sym e) h in rw h'
  any_complete (Memᴰ.tail {x} {xs} m) h = rw (any_complete m h) (ground arith)

-- The three answers of an evaluation, each with the statements that lead to it.
pub record Verdict {ℓ} {S : Type ℓ} (Applies : S → Type 0) (effect : S → Effect) (ss : List S)
    (answer : Option Effect) : Type ℓ where
  pub denied : (answer ≡ some deny) ↔ ((s : S) × Memᴰ s ss × Applies s × (effect s ≡ deny))
  pub allowed : (answer ≡ some allow) ↔ (
      (¬ ((s : S) × Memᴰ s ss × Applies s × (effect s ≡ deny)))
      × ((s : S) × Memᴰ s ss × Applies s × (effect s ≡ allow)))
  pub silent : (answer ≡ none) ↔ (
      (¬ ((s : S) × Memᴰ s ss × Applies s × (effect s ≡ deny)))
      × (¬ ((s : S) × Memᴰ s ss × Applies s × (effect s ≡ allow))))

is_deny_iff : (e : Effect) → (is_deny e ≡ true) ↔ (e ≡ deny)
is_deny_iff e = ground arith

is_allow_iff : (e : Effect) → (is_allow e ≡ true) ↔ (e ≡ allow)
is_allow_iff e = ground arith

module _ {ℓ} {S : Type ℓ} (matches : S → Bool) (effect : S → Effect) (Applies : S → Type 0)
    (matches_iff : (s : S) → (matches s ≡ true) ↔ Applies s) where
  abbrev Some : Effect → List S → Type ℓ
  Some e ss = (s : S) × Memᴰ s ss × Applies s × (effect s ≡ e)

  any_iff :
      (e : Effect) (is_e : Effect → Bool) (is_e_iff : (d : Effect) → (is_e d ≡ true) ↔ (d ≡ e))
      (ss : List S)
      → (any (λ s. matches s && is_e (effect s)) ss ≡ true) ↔ Some e ss
  any_iff e is_e is_e_iff ss = (
    λ h.
        let (s, m, t) = any_sound (λ s. matches s && is_e (effect s)) ss h in
        let (t₁, t₂) = (and_iff (matches s) (is_e (effect s))).0 t in
        (s, m, (matches_iff s).0 t₁, (is_e_iff (effect s)).0 t₂),
    λ (s, m, a, d).
        any_complete (λ s. matches s && is_e (effect s)) m
          ((and_iff (matches s) (is_e (effect s))).1
            ((matches_iff s).1 a, (is_e_iff (effect s)).1 d)),
  )

  -- From a Boolean account of the statements to the statements themselves.
  verdict_lem :
      (d a : Bool) (ss : List S)
      → (d ≡ true) ↔ Some deny ss
      → (a ≡ true) ↔ Some allow ss
      → Verdict Applies effect ss (verdict d a)
  verdict_lem true a ss hd ha = record {
    denied = (λ _. hd.0 refl, λ _. refl);
    allowed = (λ h. cc, λ (n, _). absurd (n (hd.0 refl)));
    silent = (λ h. cc, λ (n, _). absurd (n (hd.0 refl)));
  }
  verdict_lem false true ss hd ha = record {
    denied = (λ h. cc, λ x. cc (hd.1 x));
    allowed = (λ _. (λ x. cc (hd.1 x), ha.0 refl), λ _. refl);
    silent = (λ h. cc, λ (_, n). absurd (n (ha.0 refl)));
  }
  verdict_lem false false ss hd ha = record {
    denied = (λ h. cc, λ x. cc (hd.1 x));
    allowed = (λ h. cc, λ (_, x). cc (ha.1 x));
    silent = (λ _. (λ x. cc (hd.1 x), λ x. cc (ha.1 x)), λ _. refl);
  }

  -- The loop's answer: a statement that denies wins over every statement that allows.
  pub evaluate_loop-Verdict :
      (ss : List S) → Verdict Applies effect ss (evaluate_loop matches effect ss none)
  evaluate_loop-Verdict ss = rw (evaluate_loop_lem matches effect ss) (
      verdict_lem _ _ ss (any_iff deny is_deny is_deny_iff ss)
        (any_iff allow is_allow is_allow_iff ss))

module _ {ℓ} {S : Type ℓ} {Applies : S → Type 0} {effect : S → Effect} (ss ts : List S)
    (same : (s : S) → Memᴰ s ss ↔ Memᴰ s ts) where
  -- Two lists with the same statements have the same answer.
  pub Verdict-unique :
      {a b : Option Effect} → Verdict Applies effect ss a → Verdict Applies effect ts b → a ≡ b
  Verdict-unique {a = some deny} v w =
      let (s, m, h, e) = v.denied.0 refl in sym (w.denied.1 (s, (same s).0 m, h, e))
  Verdict-unique {a = some allow} v w =
      let (n, (s, m, h, e)) = v.allowed.0 refl in
      sym (w.allowed.1 (λ (t, k, a, d). n (t, (same t).1 k, a, d), (s, (same s).0 m, h, e)))
  Verdict-unique {a = none} v w =
      let (n, k) = v.silent.0 refl in
      sym (
        w.silent.1
          (λ (t, m, a, d). n (t, (same t).1 m, a, d), λ (t, m, a, d). k (t, (same t).1 m, a, d)))
