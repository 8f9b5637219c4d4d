-- ===== src/Platform/Evaluation/Regions.antt =====
-- internal/platform/platform.go: `MatchRegionFilter` against its documented rule.
use resin.Prelude.{
  String, Bool, true, false, not, ◌&&◌, ◌||◌, Option, none, some, List, [], ◌∷◌, ◌==◌, string_key,
  ◌≡◌, arith, Option-cases, inl, inr,
}
use resin.Prelude.Text.{after_bang}
use resin.Node.Entry.{is_nil}
use resin.Platform.Evaluation.{match_region_loop, match_region_filter}

module _ (region : String) where
  abbrev excludes : Option String → Bool
  excludes none = false
  excludes (some r) = region == r

  abbrev is_positive : Option String → Bool
  is_positive none = true
  is_positive (some r) = false

  abbrev pub in_exclude : List String → Bool
  in_exclude [] = false
  in_exclude (f ∷ fs) = excludes (after_bang f) || in_exclude fs

  abbrev pub has_include : List String → Bool
  has_include [] = false
  has_include (f ∷ fs) = is_positive (after_bang f) || has_include fs

  abbrev pub in_include : List String → Bool
  in_include [] = false
  in_include (f ∷ fs) = (is_positive (after_bang f) && region == f) || in_include fs

  match_region_loop_lem :
      (filters : List String) (included any : Bool)
      → match_region_loop region filters included any ≡ (
          not (in_exclude filters)
          && not ((any || has_include filters) && not (included || in_include filters)))
  unfolding match_region_loop
  match_region_loop_lem [] included any = ground arith
  match_region_loop_lem (f ∷ fs) included any = elim (Option-cases (after_bang f)) [
    | inl e ↦
        ground
          (arith, e, match_region_loop_lem fs true true, match_region_loop_lem fs included true)
    | inr (r, e) ↦ ground (arith, e, match_region_loop_lem fs included any)
  ]

  -- Without filters every region matches. With filters the region must be known, be in the include
  -- set if that is not empty, and not be in the exclude set.
  pub match_region_filter_lem :
      (filters : List String)
      → match_region_filter region filters ≡ (
          is_nil filters
          || (not (region == "")
              && not (in_exclude filters)
              && (not (has_include filters) || in_include filters)))
  unfolding match_region_filter
  match_region_filter_lem filters = ground (arith, match_region_loop_lem filters false false)
