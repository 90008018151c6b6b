-- ===== src/Tests/Relays.antt =====
-- Witnesses for the relay of a stream: one text, yielded while the thread has still the sentinel to put.
use mkc.Prelude.{◌+◌, ◌*◌, ◌≤◌, none, [], ◌∷◌, length, ◌≡◌, ◌⊎◌, refl, false}
use mkc.Prelude.Text.{codes}
use mkc.Llm.Relay.{
  Source, State, running, text, sentinel, start, Step, put, get_text, Reach, here, next, puts,
  ending,
}
use mkc.Llm.Relay.Runs.{IsRelayed, Reach-IsRelayed}
use mkc.Llm.Relay.Ends.{steps, is_running, Reach-ends}

abbrev source : Source
source = record { texts = codes "hello" ∷ []; failure = none }

abbrev half_way : State
half_way = record {
  to_put = sentinel ∷ [];
  queue = [];
  yielded = codes "hello" ∷ [];
  progress = running;
}

run : Reach (start source) half_way
unfolding start puts ending
run =
    next (next here (put (text (codes "hello")) (sentinel ∷ []) refl))
      (get_text (codes "hello") [] refl refl)

Reach-IsRelayed_example : IsRelayed source half_way.yielded half_way.progress
Reach-IsRelayed_example = Reach-IsRelayed source half_way run

Reach-ends_example :
    (steps run ≤ 2 * (length source.texts + 2))
    × (((t : State) × Step half_way t) ⊎ (is_running half_way.progress ≡ false))
Reach-ends_example = Reach-ends source half_way run
