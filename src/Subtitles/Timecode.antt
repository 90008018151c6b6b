-- ===== src/Subtitles/Timecode.antt =====
-- ai-service/app/utils/timecode.py and the texts of ai-service/app/services/srt_generator.py. What
-- `round(seconds * 1000)` is for finite `seconds` that are not negative is the parameter `rounded`.
use mkc.Prelude.{
  ℕ, zero, suc, ◌+◌, ◌-◌, ◌*◌, ◌/◌, ◌%◌, ◌≤◌, ◌<◌, List, [], ◌∷◌, ◌++◌, length, length-append, ltb,
  if◌then◌else◌, All, All-append, ◌≡◌, refl, ap, ◌∙◌, Option, arith, Bool-cases, inl, inr, true,
}
use mkc.Prelude.Text.{Text, codes, join, text_eqb}
use mkc.Exceptions.{api, Result, ok, raise, ◌>>=◌}
use mkc.Prelude.Decimal.{digits_onto, decimal, value_onto, value-decimal}
use mkc.Embedding.{repeat}
use mkc.Indexing.{AsrSegment}
use mkc.Subtitles.{Clock, MergerConfig, merge}

-- `f"{n:0{width}d}"`
unfoldable pub padded : ℕ → ℕ → Text
padded width n = let digits = decimal n in repeat (width - length digits) b'0' ++ digits

-- The time of `ms` thousandths of a second
unfoldable pub timecode : ℕ → Text → Text
timecode ms separator =
    let hours = ms / 3600000 in
    let in_hour = ms % 3600000 in
    let minutes = in_hour / 60000 in
    let in_minute = in_hour % 60000 in
    let secs = in_minute / 1000 in
    let millis = in_minute % 1000 in
    padded 2 hours
    ++ (codes ":"
        ++ (padded 2 minutes ++ (codes ":" ++ (padded 2 secs ++ (separator ++ padded 3 millis)))))

module _ {F : Type 0} (clock : Clock F) (rounded : F → ℕ) where
  unfoldable pub format_timecode : F → Text → Text
  format_timecode seconds separator =
      let seconds' = if clock.less seconds clock.nought then clock.nought else seconds in
      timecode (rounded seconds') separator

  -- The blocks of `_generate_srt`, numbered from `index` on
  unfoldable srt_blocks : ℕ → List (AsrSegment F) → List Text
  srt_blocks index [] = []
  srt_blocks index (segment ∷ segments) =
      (decimal index
        ++ (codes "\n"
            ++ (format_timecode segment.start (codes ",")
                ++ (codes " --> "
                    ++ (format_timecode segment.end (codes ",")
                        ++ (codes "\n" ++ (segment.text ++ codes "\n")))))))
      ∷ srt_blocks (suc index) segments

  unfoldable generate_srt : List (AsrSegment F) → Text
  generate_srt segments = join (codes "\n") (srt_blocks 1 segments)

  -- The lines of `_generate_vtt` behind the first two
  unfoldable vtt_lines : List (AsrSegment F) → List Text
  vtt_lines [] = []
  vtt_lines (segment ∷ segments) =
      (format_timecode segment.start (codes ".")
        ++ (codes " --> " ++ format_timecode segment.end (codes ".")))
      ∷ segment.text
      ∷ []
      ∷ vtt_lines segments

  unfoldable generate_vtt : List (AsrSegment F) → Text
  generate_vtt segments = join (codes "\n") (codes "WEBVTT" ∷ [] ∷ vtt_lines segments)

  unfoldable written : Text → List (AsrSegment F) → Result Text
  written output_format [] = raise (api (codes "EMPTY_SEGMENTS"))
  written output_format (segment ∷ segments) = ok (
      if text_eqb output_format (codes "vtt")
      then generate_vtt (segment ∷ segments)
      else generate_srt (segment ∷ segments))

  -- `SrtGenerator.generate`; the limits of `cfg` are used, and `language` instead of its own
  unfoldable generate : MergerConfig F → Text → List (AsrSegment F) → Option Text → Result Text
  generate cfg output_format [] language = raise (api (codes "EMPTY_SEGMENTS"))
  generate cfg output_format (segment ∷ segments) language =
      merge clock
        record {
          min_duration = cfg.min_duration;
          max_duration = cfg.max_duration;
          max_chars = cfg.max_chars;
          language = language;
        }
        (segment ∷ segments)
      >>= written output_format

value_onto-repeat : (n : ℕ) (text : Text) → value_onto 0 (repeat n b'0' ++ text) ≡ value_onto 0 text
unfolding repeat value_onto
value_onto-repeat zero text = refl
value_onto-repeat (suc n) text = value_onto-repeat n text

length-repeat : {A : Type 0} (n : ℕ) (a : A) → length (repeat n a) ≡ n
unfolding repeat
length-repeat zero a = refl
length-repeat (suc n) a = ap suc (length-repeat n a)

value_onto-padded : (width n : ℕ) → value_onto 0 (padded width n) ≡ n
unfolding padded
value_onto-padded width n =
    value_onto-repeat (width - length (decimal n)) (decimal n) ∙ value-decimal n

-- The first number that needs more than `n + 1` digits
abbrev limit : ℕ → ℕ
limit zero = 10
limit (suc n) = 10 * limit n

length-digits_onto :
    (size f n : ℕ) (acc : Text)
    → n < limit size
    → length (digits_onto f n acc) ≤ suc size + length acc
unfolding digits_onto
length-digits_onto size zero n acc small = omega arith
length-digits_onto zero (suc f) n acc small =
    let short : ltb n 10 ≡ true = ground arith in rw short (omega arith)
length-digits_onto (suc size) (suc f) n acc small = elim (Bool-cases (ltb n 10)) [
  | inl short ↦ rw short (omega arith)
  | inr long ↦ rw long (
      let ih = length-digits_onto size f (n / 10) ((b'0' + n % 10) ∷ acc) (omega (arith, small)) in
      omega (arith, ih))
]

length-padded : (size n : ℕ) → n < limit size → length (padded (suc size) n) ≡ suc size
unfolding padded decimal
length-padded size n small =
    let digits = decimal n in
    omega (
      arith,
      length-append (repeat (suc size - length digits) b'0') digits,
      length-repeat {A = ℕ} (suc size - length digits) b'0',
      length-digits_onto size (n + 1) n [] small,
    )

padded_wide : (width n : ℕ) → width ≤ length (padded width n)
unfolding padded
padded_wide width n =
    let digits = decimal n in
    omega (
      arith,
      length-append (repeat (width - length digits) b'0') digits,
      length-repeat {A = ℕ} (width - length digits) b'0',
    )

abbrev pub IsDigit : ℕ → Type 0
IsDigit c = (48 ≤ c) × (c ≤ 57)

digits_onto-All : (f n : ℕ) (acc : Text) → All IsDigit acc → All IsDigit (digits_onto f n acc)
unfolding digits_onto
digits_onto-All zero n acc h = h
digits_onto-All (suc f) n acc h =
    let more : All IsDigit ((b'0' + n % 10) ∷ acc) = ((omega arith, omega arith), h) in
    elim (Bool-cases (ltb n 10)) [
      | inl last ↦ rw last more
      | inr rest ↦ rw rest (digits_onto-All f (n / 10) ((b'0' + n % 10) ∷ acc) more)
    ]

repeat-All : (n : ℕ) → All IsDigit (repeat n b'0')
unfolding repeat
repeat-All zero = tt
repeat-All (suc n) = ((omega arith, omega arith), repeat-All n)

padded-All : (width n : ℕ) → All IsDigit (padded width n)
unfolding padded decimal
padded-All width n =
    All-append IsDigit (repeat (width - length (decimal n)) b'0') (decimal n)
      (repeat-All (width - length (decimal n))) (digits_onto-All (n + 1) n [] tt)

-- `text` is hours, minutes, seconds and thousandths, in decimal digits of the numbers given, that make
-- `ms`.
abbrev pub Reads : ℕ → Text → Text → Type 0
Reads ms separator text =
    (hours : Text) × (minutes : Text) × (secs : Text) × (millis : Text) × (text
      ≡ hours ++ (codes ":" ++ (minutes ++ (codes ":" ++ (secs ++ (separator ++ millis))))))
    × All IsDigit hours
    × All IsDigit minutes
    × All IsDigit secs
    × All IsDigit millis
    × (2 ≤ length hours)
    × (length minutes ≡ 2)
    × (length secs ≡ 2)
    × (length millis ≡ 3)
    × (value_onto 0 minutes < 60)
    × (value_onto 0 secs < 60)
    × (value_onto 0 hours * 3600000
          + value_onto 0 minutes * 60000
          + value_onto 0 secs * 1000
          + value_onto 0 millis
        ≡ ms)

timecode-Reads : (ms : ℕ) (separator : Text) → Reads ms separator (timecode ms separator)
unfolding timecode
timecode-Reads ms separator =
    let hours = ms / 3600000 in
    let minutes = ms % 3600000 / 60000 in
    let secs = ms % 3600000 % 60000 / 1000 in
    let millis = ms % 3600000 % 60000 % 1000 in
    (
      padded 2 hours,
      padded 2 minutes,
      padded 2 secs,
      padded 3 millis,
      refl,
      padded-All 2 hours,
      padded-All 2 minutes,
      padded-All 2 secs,
      padded-All 3 millis,
      padded_wide 2 hours,
      length-padded 1 minutes (omega arith),
      length-padded 1 secs (omega arith),
      length-padded 2 millis (omega arith),
      rw (value_onto-padded 2 minutes) (omega arith),
      rw (value_onto-padded 2 secs) (omega arith),
      rw
          (
            value_onto-padded 2 hours,
            value_onto-padded 2 minutes,
            value_onto-padded 2 secs,
            value_onto-padded 3 millis,
          )
          (omega arith),
    )

-- A timecode consists of hours, minutes, seconds and thousandths, in decimal digits only, with `:`, `:`
-- and the separator between them; minutes and seconds are below 60 and take two digits, thousandths
-- take three, and hours take two at least. Together they are the number of thousandths of a second
-- that `round` gives for the time, or for nought where the time is before it.
pub format_timecode-Reads :
    {F : Type 0} (clock : Clock F) (rounded : F → ℕ) (seconds : F) (separator : Text)
    → Reads
        (rounded (if clock.less seconds clock.nought then clock.nought else seconds))
        separator
        (format_timecode clock rounded seconds separator)
unfolding format_timecode
format_timecode-Reads clock rounded seconds separator = timecode-Reads _ separator
