-- ===== src/Node/Entry/Filter.antt =====
-- internal/node/entry.go: `MatchTagFilter` against a reading of its rules without loops.
use resin.Prelude.{
  String, Bool, true, false, not, ◌&&◌, ◌||◌, Option, none, some, List, [], ◌∷◌, ◌++◌,
  if◌then◌else◌, ◌≡◌, refl, arith, Bool-cases, Option-cases, inl, inr,
}
use resin.Prelude.Text.{join}
use resin.Node.Hash.{Hash}
use resin.Node.Entry.{
  NodeEntry, SubInfo, SubLookup, TagFilter, is_nil, matches_all, matches_any, match_tags,
  match_subs, match_tag_filter, any_enabled,
}

-- the `name/tag` texts of a subscription, and of all enabled ones
abbrev pub texts : String → List String → List String
texts name [] = []
texts name (tag ∷ tags) = join name tag ∷ texts name tags

abbrev pub enabled_texts : Option SubInfo → List String
enabled_texts none = []
enabled_texts (some info) = if info.enabled then texts info.name info.tags else []

abbrev pub candidates : SubLookup → Hash → List String → List String
candidates lookup hash [] = []
candidates lookup hash (sub ∷ subs) = enabled_texts (lookup sub hash) ++ candidates lookup hash subs

abbrev pub some_of : (String → Bool) → List String → Bool
some_of p [] = false
some_of p (s ∷ ss) = p s || some_of p ss

module _ (f : TagFilter) where
  abbrev pub is_banned : String → Bool
  is_banned s = matches_any s f.must_not

  abbrev pub is_wanted : String → Bool
  is_wanted s = matches_all s f.must && (is_nil f.any || matches_any s f.any)

  some_of-append :
      (p : String → Bool) (a b : List String) → some_of p (a ++ b) ≡ (some_of p a || some_of p b)
  some_of-append p [] b = refl
  some_of-append p (s ∷ a) b = ground (arith, some_of-append p a b)

  match_tags_lem :
      (name : String) (tags : List String) (matched : Bool)
      → match_tags f name tags matched ≡ (
          if some_of is_banned (texts name tags)
          then none
          else some (matched || some_of is_wanted (texts name tags)))
  unfolding match_tags
  match_tags_lem name [] matched = ground arith
  match_tags_lem name (tag ∷ tags) matched =
      ground (arith, match_tags_lem name tags (matched || is_wanted (join name tag)))

  match_subs_lem :
      (lookup : SubLookup) (hash : Hash) (subs : List String) (has_enabled matched : Bool)
      → let texts_of = candidates lookup hash subs in
        match_subs f lookup hash subs has_enabled matched ≡ (
          if some_of is_banned texts_of
          then none
          else some
              (has_enabled || any_enabled lookup hash subs, matched || some_of is_wanted texts_of))
  unfolding match_subs any_enabled
  match_subs_lem lookup hash [] has_enabled matched = ground arith
  match_subs_lem lookup hash (sub ∷ subs) has_enabled matched =
      elim (Option-cases (lookup sub hash)) [
        | inl e ↦
            rw (e, match_subs)
              (ground (arith, match_subs_lem lookup hash subs has_enabled matched, e))
        | inr (info, e) ↦ elim (Bool-cases info.enabled) [
          | inr off ↦
              rw (e, off, match_subs)
                (ground (arith, match_subs_lem lookup hash subs has_enabled matched, e, off))
          | inl on ↦
              let named = texts info.name info.tags in
              let wanted = some_of is_wanted named in
              ground (
                arith,
                e,
                on,
                match_tags_lem info.name info.tags matched,
                match_subs_lem lookup hash subs true (matched || wanted),
                some_of-append is_banned named (candidates lookup hash subs),
                some_of-append is_wanted named (candidates lookup hash subs),
              )
        ]
      ]

  -- A filter with a lookup accepts a node exactly if no text of an enabled subscription matches a
  -- forbidden pattern and, with a positive rule, some text matches all required patterns and one of
  -- the optional ones, or, without, some subscription of the node is enabled.
  pub match_tag_filter_lem :
      (e : NodeEntry) (lookup : SubLookup)
      → let texts_of = candidates lookup e.hash e.subscription_ids in
        match_tag_filter e f (some lookup) ≡ (
          not (some_of is_banned texts_of)
          && (if not (is_nil f.any) || not (is_nil f.must)
              then some_of is_wanted texts_of
              else any_enabled lookup e.hash e.subscription_ids))
  unfolding match_tag_filter any_enabled
  match_tag_filter_lem e lookup =
      ground (arith, match_subs_lem lookup e.hash e.subscription_ids false false)
