-- ===== src/Tests.antt =====
-- Concrete inputs: scores that are natural numbers, and results read off a run.
mod Chunks
mod Retrieves
mod Documents
mod Extracts
mod Hybrids
mod Cites
mod Memories
mod Agents
mod Indexes
mod Llms
mod Searches
mod Subtitling
mod Summing
mod Answers
mod Storing
mod Relays
use mkc.Prelude.{ℕ, ◌+◌, ◌/◌, leb, true, Bool, Option, none, some, ◌≡◌, arith}
use mkc.Prelude.Text.{Text}
use mkc.Prelude.Order.{Float, IsOrdered}
use mkc.Exceptions.{Exception, Result, ok, raise}

abbrev ℕ_float : Float ℕ
ℕ_float = record { nought = 0; add = λ a b. a + b; over = λ a n. a / n; le = leb }

ℕ_float-IsOrdered : IsOrdered ℕ_float
ℕ_float-IsOrdered = record { total = λ a b. ground arith; le_trans = λ a b c h k. ground arith }

abbrev value_of {ℓ} : {A : Type ℓ} → Result A → A → A
value_of (ok a) default = a
value_of (raise e) default = default

abbrev some_of {ℓ} : {A : Type ℓ} → Option A → A → A
some_of (some a) default = a
some_of none default = default
