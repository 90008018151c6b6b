-- ===== src/Tests/Llms.antt =====
-- Witnesses for the client of the language model: a provider that times out, and a second one.
use mkc.Prelude.{ℕ, some, if◌then◌else◌, ◌≡◌, refl, arith, ltb, inr}
use mkc.Exceptions.{ok, raise, llm_timeout, other}
use mkc.Llm.{Provider, is_retried, complete}
use mkc.Llm.Retries.{Answers, FailsFrom, rounds, complete-Answers}

abbrev down : Provider ℕ
down attempt = raise llm_timeout

abbrev late : Provider ℕ
late attempt = if ltb attempt 1 then raise llm_timeout else ok 7

abbrev foreign : Provider ℕ
foreign attempt = raise other

down-FailsFrom : FailsFrom down 0 (rounds 3)
unfolding is_retried
down-FailsFrom =
    ((llm_timeout, refl, refl), ((llm_timeout, refl, refl), ((llm_timeout, refl, refl), tt)))

late-Answers : Answers 3 late 7
unfolding is_retried
late-Answers = (1, omega arith, ((llm_timeout, refl, refl), tt), refl)

complete-Answers_example : complete 3 down (some late) ≡ ok 7
complete-Answers_example =
    complete-Answers 3 down (some late) 7 (inr (down-FailsFrom, late, refl, late-Answers))
