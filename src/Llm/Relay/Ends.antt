-- ===== src/Llm/Relay/Ends.antt =====
-- The two come to an end, and the caller is never stuck.
use mathlib.Core.List.{append-nil}
use mkc.Prelude.{
  Bool, true, false, ℕ, suc, ◌+◌, ◌*◌, ◌<◌, ◌≤◌, List-cases, length-map, Option, none, some, List,
  [], ◌∷◌, ◌++◌, map, length, length-append, ◌≡◌, ◌⊎◌, inl, inr, refl, ap, sym, ◌∙◌, arith,
}
use mkc.Prelude.Text.{Text}
use mkc.Exceptions.{Exception}
use mkc.Llm.Relay.{
  Source, Progress, running, over, raised, Item, text, exception, sentinel, ending, puts, State,
  start, Step, put, get_text, get_exception, get_sentinel, Reach, here, next,
}
use mkc.Llm.Relay.Runs.{taken, Keeps, start-Keeps, Reach-Keeps}

abbrev measure : State → ℕ
measure s = 2 * length s.to_put + length s.queue

Step-measure : (s t : State) → Step s t → measure t < measure s
Step-measure s t (put item rest e) =
    omega (arith, ap length e, length-append {0} s.queue (item ∷ []))
Step-measure s t (get_text x rest p e) = omega (arith, ap length e)
Step-measure s t (get_exception x rest p e) = omega (arith, ap length e)
Step-measure s t (get_sentinel rest p e) = omega (arith, ap length e)

abbrev pub steps : {s t : State} → Reach s t → ℕ
steps here = 0
steps (next r step) = suc (steps r)

steps-measure : (s t : State) (r : Reach s t) → steps r + measure t ≤ measure s
steps-measure s t here = omega arith
steps-measure s t (next {t = m} r step) = omega (arith, steps-measure s m r, Step-measure m t step)

length-ending : (failure : Option Exception) → length (ending failure) ≤ 2
unfolding ending
length-ending none = omega arith
length-ending (some e) = omega arith

start-measure : (source : Source) → measure (start source) ≤ 2 * (length source.texts + 2)
unfolding start puts
start-measure source = omega (
  arith,
  length-append {0} (map text source.texts) (ending source.failure),
  length-map text source.texts,
  length-ending source.failure,
)

-- a step of the caller, where the queue is not empty
get-Step :
    (s : State) (item : Item) (rest : List Item)
    → s.progress ≡ running
    → s.queue ≡ item ∷ rest
    → (t : State) × Step s t
get-Step s (text x) rest p e = (_, get_text x rest p e)
get-Step s (exception x) rest p e = (_, get_exception x rest p e)
get-Step s sentinel rest p e = (_, get_sentinel rest p e)

none_left :
    (ts us : List Text) (failure : Option Exception)
    → map text ts ≡ map text us ++ ending failure
    → ⊥
unfolding ending
none_left [] [] none h = ground (arith, h)
none_left [] [] (some e) h = ground (arith, h)
none_left [] (u ∷ us) failure h = ground (arith, h)
none_left (t ∷ ts) [] none h = ground (arith, h)
none_left (t ∷ ts) [] (some e) h = ground (arith, h)
none_left (t ∷ ts) (u ∷ us) failure h = none_left ts us failure (cc)

running-Step :
    (source : Source) (s : State) → Keeps source s → s.progress ≡ running → (t : State) × Step s t
unfolding puts
running-Step source s h p = elim (List-cases s.queue) [
  | inr (item, rest, e) ↦ get-Step s item rest p e
  | inl empty ↦ elim (List-cases s.to_put) [
    | inr (item, rest, e) ↦ (_, put item rest e)
    | inl done ↦
        let all : map text s.yielded ++ [] ≡ map text source.texts ++ ending source.failure =
          ap (λ now. taken s.yielded now ++ []) (sym p)
          ∙ ap (λ (q : List Item). taken s.yielded s.progress ++ q)
              (sym (ap (λ q. q ++ s.to_put) empty ∙ done))
          ∙ h in
        absurd (
          none_left s.yielded source.texts source.failure
            (sym (append-nil (map text s.yielded)) ∙ all))
  ]
]

abbrev pub is_running : Progress → Bool
is_running running = true
is_running over = false
is_running (raised e) = false

running_cases : (progress : Progress) → (progress ≡ running) ⊎ (is_running progress ≡ false)
running_cases running = inl refl
running_cases over = inr refl
running_cases (raised e) = inr refl

-- A run takes at most two steps for each text and four more, and where the iteration goes on, the thread
-- or the caller can take one more: the caller comes to an end, and does not wait for ever.
pub Reach-ends :
    (source : Source) (s : State) (r : Reach (start source) s)
    → (steps r ≤ 2 * (length source.texts + 2))
      × (((t : State) × Step s t) ⊎ (is_running s.progress ≡ false))
Reach-ends source s r =
    let kept = Reach-Keeps source (start source) s r (start-Keeps source) in
    (
      omega (arith, steps-measure (start source) s r, start-measure source),
      elim (running_cases s.progress) [
        | inl p ↦ inl (running-Step source s kept p)
        | inr ended ↦ inr ended
      ],
    )
