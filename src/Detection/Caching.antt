-- ===== src/Detection/Caching.antt =====
-- A cache that holds results of full detections changes no result.
use slopsentinel.Base.{
  ap, Text, text_eq, List, [], ◌∷◌, ◌++◌, Option, none, some, ◌≡◌, refl, arith, ◌∙◌, sym, All,
  splitlines,
}
use mathlib.Core.Path.{ap₂}
use mathlib.Core.Option.{some-injective}
use slopsentinel.Types.{FilePath, Violation}
use slopsentinel.Languages.{detect_language}
use slopsentinel.Suppressions.{parse_suppressions}
use slopsentinel.Config.{SlopSentinelConfig}
use slopsentinel.Detection.{
  FileContext, ProjectContext, file_rules, detect, Rule, CacheOps, ChangedLines, keep_changed,
  after_lookup, cached_full, detect_file_full, detect_files,
}

-- What the files of a project have been: the path of each relative path, and the texts read from them.
pub record Files : Type 1 where
  pub path_at : Text → FilePath
  pub Read : Text → Type 0

-- A context as the scanner builds it from a file and its text.
abbrev pub IsBuilt : Files → FileContext → Type 0
IsBuilt files c =
    (c.path ≡ files.path_at c.relative_path)
    × files.Read c.text
    × (detect_language c.path ≡ some c.language)
    × (c.lines ≡ splitlines c.text)
    × (c.suppressions ≡ parse_suppressions c.lines)

-- The hash does not collide on the texts that have been read.
abbrev pub HasNoCollision : Files → (Text → Text) → Type 0
HasNoCollision files content_hash =
    (t u : Text) → files.Read t → files.Read u → content_hash t ≡ content_hash u → t ≡ u

-- The name and the text of a file determine its context, all that a rule can look at.
same_context :
    (files : Files) (c d : FileContext)
    → IsBuilt files c
    → IsBuilt files d
    → c.relative_path ≡ d.relative_path
    → c.text ≡ d.text
    → c ≡ d
same_context files c d (pc, rc, gc, lc, sc) (pd, rd, gd, ld, sd) name text =
    let path : c.path ≡ d.path = pc ∙ ap files.path_at name ∙ sym pd in
    let language : c.language ≡ d.language =
      some-injective c.language d.language (sym gc ∙ ap detect_language path ∙ gd) in
    let lines : c.lines ≡ d.lines = lc ∙ ap splitlines text ∙ sym ld in
    let suppressions : c.suppressions ≡ d.suppressions =
      sc ∙ ap parse_suppressions lines ∙ sym sd in
    λ i. record {
      path = path i;
      relative_path = name i;
      language = language i;
      text = text i;
      lines = lines i;
      suppressions = suppressions i;
    }

module _ (resolve : FilePath → FilePath) (ops : CacheOps) (content_hash : Text → Text)
    (config : SlopSentinelConfig) (rules : List Rule) (files : Files) where
  abbrev pub full : FileContext → List Violation
  full = detect_file_full config rules

  keys_agree :
      (c d : FileContext)
      → HasNoCollision files content_hash
      → IsBuilt files c
      → IsBuilt files d
      → c.relative_path ≡ d.relative_path
      → content_hash c.text ≡ content_hash d.text
      → full c ≡ full d
  keys_agree c d apart built built' name hash =
      ap full (same_context files c d built built' name (apart c.text d.text built.1 built'.1 hash))

  -- Whatever the cache holds for a context is that context's full detection.
  abbrev pub IsCoherent : ops.State → Type 0
  IsCoherent s =
      (c : FileContext) (vs : List Violation)
      → IsBuilt files c
      → ops.lookup s c.relative_path (content_hash c.text) ≡ some vs
      → vs ≡ full c

  abbrev pub CoherentOption : Option ops.State → Type 0
  CoherentOption none = Unit
  CoherentOption (some s) = IsCoherent s

  module _ (apart : HasNoCollision files content_hash) where
    put-IsCoherent :
        (s : ops.State) (ctx : FileContext)
        → IsBuilt files ctx
        → IsCoherent s
        → IsCoherent (ops.put s ctx.relative_path (content_hash ctx.text) (full ctx))
    put-IsCoherent s ctx built h c vs is e = ground (
      arith,
      ops.lookup-put s ctx.relative_path (content_hash ctx.text) (full ctx) c.relative_path
          (content_hash c.text),
      h c vs is,
      keys_agree ctx c apart built is,
    )

    get-IsCoherent :
        (s : ops.State) (rel hash : Text) → IsCoherent s → IsCoherent (ops.get s rel hash).1
    get-IsCoherent s rel hash h c vs is e =
        h c vs is (sym (ops.lookup-get s rel hash c.relative_path (content_hash c.text)) ∙ e)

    after_lookup-coherent :
        (ctx : FileContext) (found : Option (List Violation)) (s : ops.State)
        → IsBuilt files ctx
        → IsCoherent s
        → ((vs : List Violation) → found ≡ some vs → vs ≡ full ctx)
        → let r = after_lookup resolve ops content_hash config rules ctx found s in
          (r.0 ≡ full ctx) × CoherentOption r.1
    unfolding after_lookup
    after_lookup-coherent ctx none s is h k = (refl, put-IsCoherent s ctx is h)
    after_lookup-coherent ctx (some vs) s is h k = (k vs refl, h)

    cached_full-coherent :
        (ctx : FileContext) (cache : Option ops.State)
        → IsBuilt files ctx
        → CoherentOption cache
        → let r = cached_full resolve ops content_hash config rules ctx cache in
          (r.0 ≡ full ctx) × CoherentOption r.1
    unfolding cached_full
    cached_full-coherent ctx none is h = (refl, tt)
    cached_full-coherent ctx (some s) is h =
        let hash = content_hash ctx.text in
        after_lookup-coherent ctx _ _ is (get-IsCoherent s ctx.relative_path hash h)
          λ vs e. h ctx vs is (sym (ops.get_result s ctx.relative_path hash) ∙ e)

    detect_files-coherent :
        (changed : Option ChangedLines) (ctxs : List FileContext) (cache : Option ops.State)
        → All (IsBuilt files) ctxs
        → CoherentOption cache
        → let run = detect_files resolve ops content_hash config rules changed ctxs in
          ((run cache).0 ≡ (run none).0) × CoherentOption (run cache).1
    unfolding detect_files cached_full
    detect_files-coherent changed [] cache is h = (refl, h)
    detect_files-coherent changed (ctx ∷ ctxs) cache (is, rest) h =
        let (p, k) = cached_full-coherent ctx cache is h in
        let (q, l) = detect_files-coherent changed ctxs _ rest k in
        (ap₂ (λ vs rest. keep_changed resolve changed vs ++ rest) p q, l)

-- A scan of files as they are read, with a cache that holds only what full detections find in such
-- files, reports what a scan without a cache does and leaves such a cache, if the hash does not
-- collide on the texts that have been read and no two files have one relative path.
pub detect_cached :
    (resolve : FilePath → FilePath) (ops : CacheOps) (content_hash : Text → Text)
    (available : List Rule) (project : ProjectContext) (files : Files) (ctxs : List FileContext)
    (changed : Option ChangedLines) (s : ops.State)
    → All (IsBuilt files) ctxs
    → HasNoCollision files content_hash
    → IsCoherent resolve ops content_hash project.config
        (file_rules available project.config)
        files
        s
    → let run = detect resolve ops content_hash available project ctxs changed in
      ((run (some s)).0 ≡ (run none).0)
      × CoherentOption resolve ops content_hash project.config
          (file_rules available project.config)
          files
          (run (some s)).1
unfolding detect
detect_cached resolve ops content_hash available project files ctxs changed s built apart h =
    let (p, k) =
      detect_files-coherent resolve ops content_hash project.config
        (file_rules available project.config) files apart changed ctxs (some s) built h in
    (rw p refl, k)
