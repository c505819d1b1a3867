-- ===== src/Watch/Drained.antt =====
-- No path is lost between the events and the batches, and a batch is never empty.
use slopsentinel.Base.{
  texts_eq, List, [], ◌∷◌, ◌++◌, true, false, ◌||◌, ◌==◌, contains, is_nil, ◌≡◌, sym, ap, ◌∙◌,
  arith, contains-append, Bool-cases, inl, inr,
}
use slopsentinel.Types.{FilePath}
use slopsentinel.Watch.{
  Clock, DebouncedPathBatcher, new_batcher, add, drain, ready, seconds_until_ready,
}

module _ (clock : Clock) where
  -- What happens to a batcher: a path changes at a time, or the loop drains.
  pub data Event : Type 0 where
    changed : FilePath → clock.Time → Event
    drained : Event

  -- The batches that the events lead to, one after the other, and the batcher behind them.
  abbrev pub after :
      List Event → DebouncedPathBatcher clock → List FilePath × DebouncedPathBatcher clock
  after [] b = ([], b)
  after (changed path now ∷ events) b = after events (add clock b path now)
  after (drained ∷ events) b =
      let (batch, c) = drain clock b in let (batches, d) = after events c in (batch ++ batches, d)

  abbrev pub paths : List Event → List FilePath
  paths [] = []
  paths (changed path now ∷ events) = path ∷ paths events
  paths (drained ∷ events) = paths events

  already :
      (ps : List FilePath) (path p : FilePath)
      → contains ps path ≡ true
      → contains ps p ≡ (contains ps p || p == path)
  already ps path p there = elim (Bool-cases (p == path)) [
    | inr other ↦ rw other (ground arith)
    | inl same ↦
        let e : p ≡ path = ground arith in rw e (there ∙ ap (λ b. b || path == path) (sym there))
  ]

  contains-add :
      (b : DebouncedPathBatcher clock) (path : FilePath) (now : clock.Time) (p : FilePath)
      → contains (add clock b path now).pending p ≡ (contains b.pending p || p == path)
  unfolding add
  contains-add b path now p = elim (Bool-cases (contains b.pending path)) [
    | inl there ↦ rw there (already b.pending path p there)
    | inr new ↦ rw (new, contains-append) (ground arith)
  ]

  contains-after :
      (events : List Event) (b : DebouncedPathBatcher clock) (p : FilePath)
      → (contains (after events b).0 p || contains (after events b).1.pending p)
        ≡ (contains b.pending p || contains (paths events) p)
  unfolding drain
  contains-after [] b p = ground arith
  contains-after (changed path now ∷ events) b p =
      contains-after events (add clock b path now) p ∙ rw contains-add (ground arith)
  contains-after (drained ∷ events) b p =
      rw contains-append (ground (arith, contains-after events (drain clock b).1 p))

  ready-waits :
      (b : DebouncedPathBatcher clock) (now : clock.Time)
      → ready clock b now ≡ true
      → is_nil b.pending ≡ false
  unfolding ready seconds_until_ready
  ready-waits b now h = elim (Bool-cases (is_nil b.pending)) [
    | inr waits ↦ waits
    | inl empty ↦
        let never : ready clock b now ≡ false =
          rw (ready, seconds_until_ready, empty) clock.inf_positive in
        ground (arith, h, never)
  ]

  -- A path has changed exactly if it is in one of the batches drained so far or still waits; and a
  -- batcher that is ready has a path that waits, so that no batch of a ready batcher is empty.
  pub no_path_lost :
      (events : List Event) (seconds now : clock.Time) (p : FilePath)
      → let (batches, b) = after events (new_batcher clock seconds) in
        ((contains batches p || contains b.pending p) ≡ contains (paths events) p)
        × (ready clock b now ≡ true → is_nil b.pending ≡ false)
  unfolding new_batcher
  no_path_lost events seconds now p =
      let b = (after events (new_batcher clock seconds)).1 in
      (contains-after events (new_batcher clock seconds) p, ready-waits b now)
