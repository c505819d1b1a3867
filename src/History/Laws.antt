-- ===== src/History/Laws.antt =====
-- What a history file holds after a run, and the entries that it cannot skip.
use slopsentinel.Base.{
  ℕ, zero, suc, ◌<◌, Text, codes, text_eq, int_eq, List, [], ◌∷◌, ◌++◌, Option, none, some, ◌≡◌,
  refl, length, length-drop, length-append, arith, map, min, drop, ap, ◌-◌, ◌≤◌, ◌∙◌, pos, ◌==◌,
  true,
}
use slopsentinel.Json.{Json, obj, Fields, get, items_of, to_list-items_of, num, arr, field, end}
use slopsentinel.History.{
  Convert, HistoryEntry, ok, raise, key_error, parse_entry, entry_to_json, load_items, load_history,
  save_history, last_entries, append_history, text_or_none, or_null, float_of, float_or_null,
  entry_fields, get_item, int_item, parse_breakdown, ◌>>=◌,
}

text_round_trip : (o : Option Text) → text_or_none (some (or_null o)) ≡ o
text_round_trip none = refl
text_round_trip (some t) = refl

module _ (convert : Convert) where
  float_round_trip : (o : Option ℕ) → float_of convert (some (float_or_null o)) ≡ ok o
  unfolding float_of
  float_round_trip none = refl
  float_round_trip (some bits) = refl

  parse_entry-entry_fields : (e : HistoryEntry) → parse_entry convert (entry_fields e) ≡ ok e
  unfolding parse_entry get_item int_item parse_breakdown get text_eq
  parse_entry-entry_fields e =
      rw (float_round_trip e.violation_density, float_round_trip e.violation_clustering)
        (λ j. ok (record {
          timestamp = e.timestamp;
          score = e.score;
          files_scanned = e.files_scanned;
          violations = e.violations;
          breakdown = e.breakdown;
          dominant_fingerprints = to_list-items_of e.dominant_fingerprints j;
          ai_confidence = text_round_trip e.ai_confidence j;
          violation_density = e.violation_density;
          violation_clustering = e.violation_clustering;
          git_head = text_round_trip e.git_head j;
        }))

  load_items-map : (es : List HistoryEntry) → load_items convert (map entry_to_json es) ≡ ok es
  unfolding load_items entry_to_json
  load_items-map [] = refl
  load_items-map (e ∷ es) = rw (parse_entry-entry_fields e, load_items-map es) refl

  -- A history that was saved loads as the same entries.
  pub load_history-save_history :
      (es : List HistoryEntry) → load_history convert (some (save_history es)) ≡ ok es
  unfolding load_history save_history get text_eq
  load_history-save_history es =
      let one : (pos 1 == pos 1) ≡ true = ground arith in
      rw (one, to_list-items_of (map entry_to_json es)) (load_items-map es)

  get_item-none : (key : Text) (fs : Fields) → get key fs ≡ none → get_item key fs ≡ raise key_error
  unfolding get_item
  get_item-none key fs e = rw (get_item, e) refl

  load_items-raise :
      (es : List HistoryEntry) (item : Fields) (items : List Json)
      → get (codes "timestamp") item ≡ none
      → load_items convert (map entry_to_json es ++ obj item ∷ items) ≡ raise key_error
  unfolding load_items entry_to_json parse_entry
  load_items-raise [] item items e = rw (get_item-none _ _ e) refl
  load_items-raise (x ∷ es) item items e =
      rw (parse_entry-entry_fields x, load_items-raise es item items e) refl

  -- An item without a timestamp, behind any number of good entries, makes the load of the whole
  -- history raise a `KeyError`.
  pub load_history-raise :
      (es : List HistoryEntry) (item : Fields) (items : List Json)
      → get (codes "timestamp") item ≡ none
      → load_history convert (
          some (
            obj (
              field (codes "version") (num (pos 1)) (
                field
                  (codes "entries")
                  (arr (items_of (map entry_to_json es ++ obj item ∷ items)))
                  end))))
        ≡ raise key_error
  unfolding load_history get text_eq
  load_history-raise es item items e =
      let one : (pos 1 == pos 1) ≡ true = ground arith in
      rw (one, to_list-items_of (map entry_to_json es ++ obj item ∷ items))
        (load_items-raise es item items e)

  drop-before :
      (k : ℕ) (es : List HistoryEntry) (e : HistoryEntry)
      → k ≤ length es
      → drop k (es ++ e ∷ []) ≡ drop k es ++ e ∷ []
  drop-before zero es e h = refl
  drop-before (suc k) [] e h = absurd (omega (arith, h))
  drop-before (suc k) (x ∷ es) e h = drop-before k es e (omega (arith, h))

  -- After an entry was appended to a file that loads as `es`, with a positive limit `n`, the
  -- file loads as the entries of `es` with the new one behind them, without the oldest ones that
  -- are more than `n`: what is left are `n`, or all if there are fewer, and ends in the new entry.
  pub append_history_lem :
      (file : Option Json) (es : List HistoryEntry) (e : HistoryEntry) (n : ℕ)
      → 0 < n
      → load_history convert file ≡ ok es
      → ((append_history convert file e n >>= λ written. load_history convert (some written))
          ≡ ok (drop (suc (length es) - n) es ++ e ∷ []))
        × (length (drop (suc (length es) - n) es ++ e ∷ []) ≡ min n (suc (length es)))
  unfolding append_history last_entries
  append_history_lem file es e zero p loaded = absurd (omega (arith, p))
  append_history_lem file es e (suc n) p loaded =
      let shown : drop (length (es ++ e ∷ []) - suc n) (es ++ e ∷ [])
          ≡ drop (suc (length es) - suc n) es ++ e ∷ [] =
        ap (λ k. drop (k - suc n) (es ++ e ∷ [])) (length-append es (e ∷ []) ∙ omega arith)
        ∙ drop-before (suc (length es) - suc n) es e (omega arith) in
      (
        rw loaded (load_history-save_history _ ∙ ap ok shown),
        rw (length-append (drop (suc (length es) - suc n) es) (e ∷ []), length-drop) (omega arith),
      )
