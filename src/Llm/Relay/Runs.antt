-- ===== src/Llm/Relay/Runs.antt =====
-- Whatever the order of the steps, the caller has what it would have with no thread.
use mathlib.Core.List.{append_assoc}
use mkc.Prelude.{
  Option, none, some, List, [], ◌∷◌, ◌++◌, map, ◌≡◌, ◌⊎◌, inl, inr, refl, ap, sym, ◌∙◌, arith,
}
use mkc.Prelude.Text.{Text}
use mkc.Exceptions.{Exception}
use mkc.Llm.Relay.{
  Source, Progress, running, over, raised, drive, Item, text, exception, sentinel, ending, puts,
  State, start, Step, put, get_text, get_exception, get_sentinel, Reach, here, next,
}

-- The items that the caller has taken
abbrev pub taken : List Text → Progress → List Item
taken ts running = map text ts
taken ts over = map text ts ++ (sentinel ∷ [])
taken ts (raised e) = map text ts ++ (exception e ∷ [])

-- Nothing is lost on the way, and the order is kept.
abbrev pub Keeps : Source → State → Type 0
Keeps source s = taken s.yielded s.progress ++ (s.queue ++ s.to_put) ≡ puts source

map-snoc : (ts : List Text) (t : Text) → map text (ts ++ (t ∷ [])) ≡ map text ts ++ (text t ∷ [])
map-snoc [] t = refl
map-snoc (x ∷ ts) t = ap (◌∷◌ (text x)) (map-snoc ts t)

-- the item at the front of the queue stands behind those that were taken
taken-front :
    (source : Source) (s : State) (item : Item) (rest : List Item)
    → s.progress ≡ running
    → s.queue ≡ item ∷ rest
    → Keeps source s
    → map text s.yielded ++ (item ∷ (rest ++ s.to_put)) ≡ puts source
taken-front source s item rest p e h =
    ap (λ q. map text s.yielded ++ (q ++ s.to_put)) (sym e)
    ∙ ap (λ now. taken s.yielded now ++ (s.queue ++ s.to_put)) (sym p)
    ∙ h

Step-Keeps : (source : Source) (s t : State) → Step s t → Keeps source s → Keeps source t
Step-Keeps source s t (put item rest e) h =
    ap (◌++◌ (taken s.yielded s.progress))
      (append_assoc s.queue (item ∷ []) rest ∙ ap (◌++◌ s.queue) (sym e))
    ∙ h
Step-Keeps source s t (get_text x rest p e) h =
    ap (λ now. taken (s.yielded ++ (x ∷ [])) now ++ (rest ++ s.to_put)) p
    ∙ ap (λ ts. ts ++ (rest ++ s.to_put)) (map-snoc s.yielded x)
    ∙ append_assoc (map text s.yielded) (text x ∷ []) (rest ++ s.to_put)
    ∙ taken-front source s (text x) rest p e h
Step-Keeps source s t (get_exception x rest p e) h =
    append_assoc (map text s.yielded) (exception x ∷ []) (rest ++ s.to_put)
    ∙ taken-front source s (exception x) rest p e h
Step-Keeps source s t (get_sentinel rest p e) h =
    append_assoc (map text s.yielded) (sentinel ∷ []) (rest ++ s.to_put)
    ∙ taken-front source s sentinel rest p e h

pub start-Keeps : (source : Source) → Keeps source (start source)
unfolding start
start-Keeps source = refl

pub Reach-Keeps : (source : Source) (s t : State) → Reach s t → Keeps source s → Keeps source t
Reach-Keeps source s t here h = h
Reach-Keeps source s t (next {t = m} r step) h =
    Step-Keeps source m t step (Reach-Keeps source s m r h)

-- what was taken up to the sentinel is the whole stream, which ended
over_lem :
    (ts us : List Text) (rest : List Item) (failure : Option Exception)
    → map text ts ++ (sentinel ∷ rest) ≡ map text us ++ ending failure
    → (ts ≡ us) × (failure ≡ none)
unfolding ending
over_lem [] [] rest none h = (refl, refl)
over_lem [] [] rest (some e) h = absurd (ground (arith, h))
over_lem [] (u ∷ us) rest failure h = absurd (ground (arith, h))
over_lem (t ∷ ts) [] rest none h = absurd (ground (arith, h))
over_lem (t ∷ ts) [] rest (some e) h = absurd (ground (arith, h))
over_lem (t ∷ ts) (u ∷ us) rest failure h =
    let (same, ended) = over_lem ts us rest failure (cc) in (cc, ended)

raised_lem :
    (e : Exception) (ts us : List Text) (rest : List Item) (failure : Option Exception)
    → map text ts ++ (exception e ∷ rest) ≡ map text us ++ ending failure
    → (ts ≡ us) × (failure ≡ some e)
unfolding ending
raised_lem e [] [] rest none h = absurd (ground (arith, h))
raised_lem e [] [] rest (some e') h = (refl, cc)
raised_lem e [] (u ∷ us) rest failure h = absurd (ground (arith, h))
raised_lem e (t ∷ ts) [] rest none h = absurd (ground (arith, h))
raised_lem e (t ∷ ts) [] rest (some e') h = absurd (ground (arith, h))
raised_lem e (t ∷ ts) (u ∷ us) rest failure h =
    let (same, ended) = raised_lem e ts us rest failure (cc) in (cc, ended)

-- what was taken while the stream goes on is the beginning of it
prefix_lem :
    (ts us : List Text) (rest : List Item) (failure : Option Exception)
    → map text ts ++ rest ≡ map text us ++ ending failure
    → (behind : List Text) × (ts ++ behind ≡ us)
unfolding ending
prefix_lem [] us rest failure h = (us, refl)
prefix_lem (t ∷ ts) [] rest none h = absurd (ground (arith, h))
prefix_lem (t ∷ ts) [] rest (some e) h = absurd (ground (arith, h))
prefix_lem (t ∷ ts) (u ∷ us) rest failure h =
    let (behind, same) = prefix_lem ts us rest failure (cc) in (behind, cc)

drive-over :
    (source : Source) (ts : List Text)
    → ts ≡ source.texts
    → source.failure ≡ none
    → (ts, over) ≡ drive source
unfolding drive
drive-over source ts same ended = rw (drive, ended) (ap (λ us. (us, over)) same)

drive-raised :
    (source : Source) (ts : List Text) (e : Exception)
    → ts ≡ source.texts
    → source.failure ≡ some e
    → (ts, raised e) ≡ drive source
unfolding drive
drive-raised source ts e same failed = rw (drive, failed) (ap (λ us. (us, raised e)) same)

-- The end that a caller has is that of the path with no thread; before it, the caller has a beginning.
abbrev pub IsRelayed : Source → List Text → Progress → Type 0
IsRelayed source ts progress =
    ((progress ≡ running) × (behind : List Text) × (ts ++ behind ≡ source.texts))
    ⊎ ((ts, progress) ≡ drive source)

taken-IsRelayed :
    (source : Source) (ts : List Text) (progress : Progress) (items : List Item)
    → taken ts progress ++ items ≡ puts source
    → IsRelayed source ts progress
unfolding puts
taken-IsRelayed source ts running items h =
    let (behind, same) = prefix_lem ts source.texts items source.failure h in
    inl (refl, behind, same)
taken-IsRelayed source ts over items h =
    let (same, ended) =
      over_lem ts source.texts items source.failure
        (sym (append_assoc (map text ts) (sentinel ∷ []) items) ∙ h) in
    inr (drive-over source ts same ended)
taken-IsRelayed source ts (raised e) items h =
    let (same, failed) =
      raised_lem e ts source.texts items source.failure
        (sym (append_assoc (map text ts) (exception e ∷ []) items) ∙ h) in
    inr (drive-raised source ts e same failed)

-- In whatever order the thread and the caller take their steps: as long as the iteration goes on, the
-- caller has yielded a beginning of the texts, and where it is over or raised, the caller has yielded
-- just what it would have with no thread, and the iteration ended in the same way.
pub Reach-IsRelayed :
    (source : Source) (s : State) → Reach (start source) s → IsRelayed source s.yielded s.progress
Reach-IsRelayed source s r =
    taken-IsRelayed source s.yielded s.progress (s.queue ++ s.to_put)
      (Reach-Keeps source (start source) s r (start-Keeps source))
