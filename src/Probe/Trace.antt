-- ===== src/Probe/Trace.antt =====
-- internal/probe/trace.go: `ParseCloudflareTrace`.
use Prim.Native.Char.{code}
use Prim.Native.String.{String, [], ◌∷◌}
use resin.Prelude.{Option, none, some, List, [], ◌∷◌, ◌==◌, string_key, nat_key, if◌then◌else◌}
use resin.Netip.{Addr}

-- `netip.ParseAddr`, `bytes.TrimSpace` and `strings.ToLower`
pub record TextCalls : Type 0 where
  pub parse_addr : String → Option Addr
  pub trim_space : String → String
  pub to_lower : String → String

-- bytes.Split(body, "\n"): the first line and the others
unfoldable pub split_lines : String → String × List String
split_lines [] = ("", [])
split_lines (c ∷ s) =
    let (line, lines) = split_lines s in
    if code c == 10 then ("", line ∷ lines) else (c ∷ line, lines)

-- the rest of a line that begins with the prefix
unfoldable pub after_prefix : String → String → Option String
after_prefix [] line = some line
after_prefix (c ∷ p) [] = none
after_prefix (c ∷ p) (d ∷ line) =
    let rest = after_prefix p line in if code c == code d then rest else none

pub record Trace : Type 0 where
  pub ip : Option Addr
  pub loc : Option String

-- The result is none on an error.
module _ (t : TextCalls) where
  unfoldable pub parse_lines : List String → Trace → Option Trace
  unfolding after_prefix
  parse_lines [] found = some found
  parse_lines (line ∷ lines) found = elim (after_prefix "ip=" line) [
    | some raw ↦ elim (t.parse_addr (t.trim_space raw)) [
      | none ↦ none
      | some addr ↦ parse_lines lines (record found { ip = some addr })
    ]
    | none ↦ elim (after_prefix "loc=" line) [
      | none ↦ parse_lines lines found
      | some raw ↦ parse_lines lines (record found { loc = some (t.to_lower (t.trim_space raw)) })
    ]
  ]

  abbrev not_empty : Option String → Option String
  not_empty none = none
  not_empty (some loc) = if loc == "" then none else some loc

  unfoldable pub parse_cloudflare_trace : String → Option (Addr × Option String)
  unfolding split_lines parse_lines
  parse_cloudflare_trace body =
      let (line, lines) = split_lines body in
      elim (parse_lines (line ∷ lines) (record { ip = none; loc = none })) [
        | none ↦ none
        | some found ↦ elim found.ip [ none ↦ none | some ip ↦ some (ip, not_empty found.loc) ]
      ]
