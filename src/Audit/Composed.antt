-- ===== src/Audit/Composed.antt =====
-- What a run does with its baseline.
use slopsentinel.Base.{
  ℕ, Text, text_eq, texts_eq, option_eq, List, [], ◌∷◌, Option, none, some, Bool, true, false, ℤ,
  pos, ◌==◌, if◌then◌else◌, is_nil, length, sort, any-sort, ◌≡◌, refl, ◌∙◌, ap, arith,
}
use slopsentinel.Types.{FilePath, Violation}
use slopsentinel.Json.{Json}
use slopsentinel.Scoring.{summarize}
use slopsentinel.Baseline
use slopsentinel.Baseline.{
  Machine, FileEntry, RepoEntry, filter_violations, build_baseline, is_known, is_known_at,
  has_fingerprint, has_line, has_message, place_of,
}
use slopsentinel.Baseline.File.{save_baseline, entry_leb, message_leb}
use slopsentinel.Baseline.RoundTrip.{IsSavable, load-save}
use slopsentinel.Baseline.Filtering.{filter-build}
use slopsentinel.Detection.{Rule, rule_ids, FileContext, ProjectContext, ChangedLines, detect}
use slopsentinel.Audit.{
  Disk, Setting, done, ◌>>=◌, read_file, write_file, resolve_project_file, open_cache, cache_state,
  save_cache_file, with_baseline, baseline_at, apply_baseline_file, record_history_file,
  finish_audit, audit_files,
}

read-write_file :
    (p q : FilePath) (json : Json) (disk : Disk)
    → read_file p (write_file q json disk) ≡ (if q == p then some json else read_file p disk)
unfolding read_file write_file
read-write_file p q json [] = refl
read-write_file p q json ((r, old) ∷ disk) = ground (arith, read-write_file p q json disk)

abbrev in_order : Baseline.Baseline → Baseline.Baseline
in_order b = record {
  file_entries = sort entry_leb b.file_entries;
  repo_entries = sort message_leb b.repo_entries;
}

has_fingerprint-sort :
    (es : List FileEntry) (rule rel fp : Text)
    → has_fingerprint (sort entry_leb es) rule rel fp ≡ has_fingerprint es rule rel fp
unfolding has_fingerprint
has_fingerprint-sort es rule rel fp = any-sort entry_leb _ es

has_line-sort :
    (es : List FileEntry) (rule rel : Text) (line : ℤ)
    → has_line (sort entry_leb es) rule rel line ≡ has_line es rule rel line
unfolding has_line
has_line-sort es rule rel line = any-sort entry_leb _ es

is_known_at-in_order :
    (b : Baseline.Baseline) (rule rel : Text) (fp : Option Text) (n : ℕ)
    → is_known_at (in_order b) rule rel fp n ≡ is_known_at b rule rel fp n
unfolding is_known_at
is_known_at-in_order b rule rel none n = has_line-sort b.file_entries rule rel (pos n)
is_known_at-in_order b rule rel (some fp) n =
    rw
      (
        has_line-sort b.file_entries rule rel (pos n),
        has_fingerprint-sort b.file_entries rule rel fp,
      )
      refl

-- The order of the entries does not matter to the filter.
is_known-in_order :
    (m : Machine) (root : FilePath) (b : Baseline.Baseline) (v : Violation)
    (place : Option (FilePath × ℕ))
    → is_known m root (in_order b) v place ≡ is_known m root b v place
unfolding is_known has_message
is_known-in_order m root b v none = any-sort message_leb _ b.repo_entries
is_known-in_order m root b v (some (p, n)) = is_known_at-in_order b _ _ _ n

filter-in_order :
    (m : Machine) (root : FilePath) (b : Baseline.Baseline) (vs : List Violation)
    → filter_violations m root vs (in_order b) ≡ filter_violations m root vs b
unfolding filter_violations
filter-in_order m root b [] = refl
filter-in_order m root b (v ∷ vs) =
    rw (is_known-in_order m root b v (place_of v), filter-in_order m root b vs) refl

module _ (s : Setting) (root : FilePath) where
  baseline_at-saved :
      (path : FilePath) (now : Text) (disk : Disk) (vs : List Violation)
      → read_file path disk ≡ some (save_baseline now (build_baseline s.machine root vs))
      → IsSavable (build_baseline s.machine root vs)
      → baseline_at s root (some path) disk vs ≡ done []
  unfolding baseline_at with_baseline
  baseline_at-saved path now disk vs e savable =
      rw (baseline_at, e, load-save now (build_baseline s.machine root vs) savable)
        (ap done (
          filter-in_order s.machine root (build_baseline s.machine root vs) vs
          ∙ (filter-build s.machine root vs []).1))

  baseline_applies :
      (given : Option Text) (spec : Text) (path : FilePath) (now : Text) (disk : Disk)
      (vs : List Violation)
      → given ≡ some spec
      → is_nil spec ≡ false
      → resolve_project_file s root spec ≡ some path
      → read_file path disk ≡ some (save_baseline now (build_baseline s.machine root vs))
      → IsSavable (build_baseline s.machine root vs)
      → apply_baseline_file s root given true none disk vs ≡ done []
  unfolding apply_baseline_file
  baseline_applies given spec path now disk vs e f g h savable =
      rw (e, f, g) (baseline_at-saved path now disk vs h savable)

module _ (s : Setting) (available : List Rule) (project : ProjectContext) (ctxs : List FileContext)
    (disk : Disk) where
  abbrev pub opened_cache : Option (FilePath × s.cache_file.ops.State)
  opened_cache = open_cache s project.project_root project.config (rule_ids available) disk

  -- What the engine finds, and the cache after it.
  abbrev pub found : Option ChangedLines → List Violation × Option s.cache_file.ops.State
  found changed =
      detect s.resolve s.cache_file.ops s.content_hash available project ctxs changed
        (cache_state s opened_cache)

  -- The disk with the cache's file.
  abbrev pub with_cache : Option ChangedLines → Disk
  with_cache changed = save_cache_file s opened_cache (found changed).1 disk

  -- The file that the configuration names as the baseline holds what the full scan finds.
  abbrev pub HoldsBaseline : Text → FilePath → Text → Type 0
  HoldsBaseline spec path now =
      (project.config.baseline ≡ some spec)
      × (is_nil spec ≡ false)
      × (resolve_project_file s project.project_root spec ≡ some path)
      × (read_file path (with_cache none)
          ≡ some (save_baseline now (build_baseline s.machine project.project_root (found none).0)))

  -- A full scan reports no violation where the baseline's file, as it is after the cache is written,
  -- holds what was saved of the baseline built from all that the scan finds, if the rule ids of that
  -- baseline are canonical and its fingerprints have no blanks at their ends: the summary is that of no
  -- violations, and whether the history is recorded or not, the run ends as the recording of that
  -- summary does.
  pub audit_files-baseline :
      (spec : Text) (path : FilePath) (now : Text) (record_history : Bool)
      → HoldsBaseline spec path now
      → IsSavable (build_baseline s.machine project.project_root (found none).0)
      → let summary = summarize s.floats s.meta (length ctxs) [] (some project.config.scoring) in
        audit_files s available project ctxs none true record_history disk ≡ (
          record_history_file s project.project_root project.config.history record_history none
            summary
            (with_cache none)
          >>= λ after. done (summary, after))
  unfolding audit_files finish_audit ◌>>=◌
  audit_files-baseline spec path now record_history held savable =
      rw
        (baseline_applies s project.project_root project.config.baseline spec path now
          (with_cache none) (found none).0 held.0 held.1 held.2 held.3 savable)
        refl
