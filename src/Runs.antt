-- ===== src/Runs.antt =====
-- A computation with a log: what it did, and its result. Services that report to a collaborator on their
-- way are such runs.
use mathlib.Core.List.{append_assoc, append-nil}
use mkc.Prelude.{List, [], ◌++◌, ◌≡◌, sym, subst, inl, inr}
use mkc.Exceptions.{Exception, Result, ok, raise, Result-cases, ok_injective}

pub record Run (L A : Type 0) : Type 0 where
  pub log : List L
  pub result : Result A

module _ {L : Type 0} where
  -- A call that does not log
  abbrev pub silent : {A : Type 0} → Result A → Run L A
  silent result = record { log = []; result = result }

  abbrev pub write : List L → Run L (Unit {0})
  write log = record { log = log; result = ok tt }

  -- A run, and what follows it if it returns
  unfoldable pub after : {A B : Type 0} → Run L A → (A → Run L B) → Run L B
  after {A} {B} run next = elim run.result [
    | raise e ↦ record { log = run.log; result = raise e }
    | ok a ↦ record { log = run.log ++ (next a).log; result = (next a).result }
  ]

  -- Where a run that follows `before` returns, its value and the log up to there have the one property;
  -- where it raises, the log has the other.
  abbrev pub Tells :
      {A : Type 0} → List L → (A → List L → Type 0) → (List L → Type 0) → Run L A → Type 0
  Tells {A} before P Q run =
      ((a : A) → run.result ≡ ok a → P a (before ++ run.log))
      × ((e : Exception) → run.result ≡ raise e → Q (before ++ run.log))

  pub after-Tells :
      {A B : Type 0} (before : List L) (P : A → List L → Type 0) (P' : B → List L → Type 0)
      (Q : List L → Type 0) (run : Run L A) (next : A → Run L B)
      → Tells before P Q run
      → ((a : A) (log : List L) → P a log → Tells log P' Q (next a))
      → Tells before P' Q (after run next)
  unfolding after
  after-Tells {A} {B} before P P' Q run next (returns, raises) h = elim (Result-cases run.result) [
    | inl (e, q) ↦ rw q (λ b same. absurd (cc), λ d same. raises e q)
    | inr (a, q) ↦
        let (returns', raises') = h a (before ++ run.log) (returns a q) in
        rw q (
          λ b same. subst (P' b) (append_assoc before run.log (next a).log) (returns' b same),
          λ d same. subst Q (append_assoc before run.log (next a).log) (raises' d same),
        )
  ]

  pub silent-Tells :
      {A : Type 0} (before : List L) (P : A → List L → Type 0) (Q : List L → Type 0) (r : Result A)
      → ((a : A) → r ≡ ok a → P a before)
      → Q before
      → Tells before P Q (silent r)
  silent-Tells before P Q r h q = (
    λ a same. subst (P a) (sym (append-nil before)) (h a same),
    λ e same. subst Q (sym (append-nil before)) q,
  )

  pub ok-Tells :
      {A : Type 0} (before : List L) (P : A → List L → Type 0) (Q : List L → Type 0) (a : A)
      → P a before
      → Tells before P Q (silent (ok a))
  ok-Tells before P Q a h = (
    λ b same.
        subst (λ c. P c (before ++ [])) (ok_injective same)
          (subst (P a) (sym (append-nil before)) h),
    λ e same. absurd (cc),
  )

  pub write-Tells :
      (before log : List L) (P : Unit {0} → List L → Type 0) (Q : List L → Type 0)
      → P tt (before ++ log)
      → Tells before P Q (write log)
  write-Tells before log P Q h = (λ a same. h, λ e same. absurd (cc))
