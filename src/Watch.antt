-- ===== src/Watch.antt =====
-- src/slopsentinel/watch.py: the paths that wait for a quiet period. Python's floats are a parameter.
mod Drained
mod Paths
mod Tests
use slopsentinel.Base.{
  ℕ, Text, texts_eq, List, [], ◌∷◌, ◌++◌, Option, none, some, Bool, true, false, ◌||◌, ◌==◌,
  if◌then◌else◌, contains, is_nil, ◌≡◌,
}
use slopsentinel.Types.{FilePath}

-- Times in seconds, with 0.0, infinity, `-`, `max` and `<=`; infinity is not `<=` 0.0.
pub record Clock : Type 1 where
  pub Time : Type 0
  pub zero : Time
  pub inf : Time
  pub sub : Time → Time → Time
  pub maximum : Time → Time → Time
  pub le : Time → Time → Bool
  pub inf_positive : le inf zero ≡ false

module _ (clock : Clock) where
  pub record DebouncedPathBatcher : Type 0 where
    pub debounce_seconds : clock.Time
    pub pending : List FilePath
    pub last_event_at : Option clock.Time

  -- A batcher at its start
  unfoldable pub new_batcher : clock.Time → DebouncedPathBatcher
  new_batcher seconds = record { debounce_seconds = seconds; pending = []; last_event_at = none }

  unfoldable pub add : DebouncedPathBatcher → FilePath → clock.Time → DebouncedPathBatcher
  add b path now = record b {
    pending = if contains b.pending path then b.pending else b.pending ++ path ∷ [];
    last_event_at = some now;
  }

  abbrev pub until_ready : clock.Time → clock.Time → Option clock.Time → clock.Time
  until_ready debounce now none = clock.inf
  until_ready debounce now (some last) =
      clock.maximum clock.zero (clock.sub debounce (clock.sub now last))

  unfoldable pub seconds_until_ready : DebouncedPathBatcher → clock.Time → clock.Time
  seconds_until_ready b now =
      if is_nil b.pending then clock.inf else until_ready b.debounce_seconds now b.last_event_at

  unfoldable pub ready : DebouncedPathBatcher → clock.Time → Bool
  unfolding seconds_until_ready
  ready b now = clock.le (seconds_until_ready b now) clock.zero

  unfoldable pub drain : DebouncedPathBatcher → List FilePath × DebouncedPathBatcher
  drain b = (b.pending, record b { pending = []; last_event_at = none })
