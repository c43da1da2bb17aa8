-- ===== src/Generation/Answers.antt =====
-- generation/service.go: the prompt of an entry, and the cleaning of the provider's answer.
-- `strings.ToLower` and `html.UnescapeString` are parameters.
pub mod Tidy
use honeygen.Prelude.{
  ℕ, zero, suc, ◌-◌, Bool, true, false, not, ◌&&◌, ◌||◌, List, [], ◌∷◌, ◌++◌, ◌==◌, leb,
  if◌then◌else◌, length, take, drop,
}
use honeygen.Text.{Text, codes, text_eq, trim_space, has_prefix, split, join}
use honeygen.WorldModels.{WorldModel}
use honeygen.Generation.Worker.{ManifestEntry}

abbrev pub newline : ℕ
newline = 10

-- "`"
abbrev backquote : ℕ
backquote = 96

fence : Text
fence = backquote ∷ backquote ∷ backquote ∷ []

-- `strings.Join(parts, ", ")`
join_comma : List Text → Text
join_comma [] = []
join_comma (p ∷ []) = p
join_comma (p ∷ q ∷ ps) = p ++ (codes ", " ++ join_comma (q ∷ ps))

-- a part of the prompt that is there only where the list is not empty
listed : Text → List Text → Text → Text
listed label [] suffix = []
listed label (p ∷ ps) suffix = newline ∷ (label ++ (join_comma (p ∷ ps) ++ suffix))

closing : Text → Text
closing rendered_type =
    if text_eq rendered_type (codes "text") || text_eq rendered_type (codes "docx")
    then newline
      ∷ codes
          "Return plain text only. Do not include HTML, XML, Markdown formatting, or code fences."
    else if text_eq rendered_type (codes "csv") || text_eq rendered_type (codes "xlsx")
    then newline ∷ codes "Return raw CSV text only. Do not include Markdown, prose, or code fences."
    else if text_eq rendered_type (codes "markdown")
    then newline ∷ codes "Return Markdown only. Do not include code fences."
    else if text_eq rendered_type (codes "html") || text_eq rendered_type (codes "pdf")
    then newline ∷ codes "Return HTML only. Do not include Markdown fences or explanatory text."
    else []

-- a line of the prompt
line : Text → Text → Text
line label value = newline ∷ (label ++ value)

-- `buildPrompt`
unfoldable pub build_prompt : WorldModel → ManifestEntry → Text
unfolding listed closing line join_comma
build_prompt m e =
    (codes "Organization: " ++ m.organization.name)
    ++ line (codes "Industry: ") m.organization.industry
    ++ line (codes "Region: ") m.organization.region
    ++ line (codes "Tone: ") m.branding.tone
    ++ listed (codes "Brand colors: ") m.branding.colors (
        line
          (codes
            "Use these exact brand colors in any HTML/CSS styling. Do not invent different color values.")
          [])
    ++ line (codes "Requested asset: ") e.title
    ++ line (codes "Category: ") e.category
    ++ line (codes "Path: ") e.path
    ++ line (codes "Format: ")
        (if text_eq e.rendered_type (codes "pdf") then codes "html" else e.rendered_type)
    ++ line (codes "Instructions: ") e.prompt_hint
    ++ listed (codes "Departments: ") m.departments []
    ++ listed (codes "Projects: ") m.projects []
    ++ closing e.rendered_type
    ++ line (codes "Keep the content plausible, businesslike, and finite.") []

-- `strings.Contains`
contains : Text → Text → Bool
contains [] sub = text_eq sub []
contains (c ∷ s) sub = has_prefix (c ∷ s) sub || contains s sub

-- `looksLikeHTML`, on the lowered content
unfoldable pub looks_like_html : Text → Bool
unfolding contains
looks_like_html lowered =
    contains lowered (codes "<!doctype html")
    || contains lowered (codes "<html")
    || contains lowered (codes "<body")
    || contains lowered (codes "<p")
    || contains lowered (codes "<div")
    || contains lowered (codes "<h1")
    || contains lowered (codes "<section")
    || contains lowered (codes "<article")

-- the pairs of `htmlToTextReplacer`
html_pairs : List (Text × Text)
html_pairs =
    (codes "<br>", newline ∷ [])
    ∷ (codes "<br/>", newline ∷ [])
    ∷ (codes "<br />", newline ∷ [])
    ∷ (codes "</p>", newline ∷ newline ∷ [])
    ∷ (codes "</div>", newline ∷ [])
    ∷ (codes "</section>", newline ∷ [])
    ∷ (codes "</article>", newline ∷ [])
    ∷ (codes "</li>", newline ∷ [])
    ∷ (codes "</ul>", newline ∷ [])
    ∷ (codes "</ol>", newline ∷ [])
    ∷ (codes "</h1>", newline ∷ newline ∷ [])
    ∷ (codes "</h2>", newline ∷ newline ∷ [])
    ∷ (codes "</h3>", newline ∷ newline ∷ [])
    ∷ (codes "</h4>", newline ∷ newline ∷ [])
    ∷ (codes "</h5>", newline ∷ newline ∷ [])
    ∷ (codes "</h6>", newline ∷ newline ∷ [])
    ∷ (codes "</tr>", newline ∷ [])
    ∷ (codes "</td>", 9 ∷ [])
    ∷ (codes "</th>", 9 ∷ [])
    ∷ (codes "<li>", codes "- ")
    ∷ []

-- the first pair whose old text stands here: what it writes, and how many characters it takes; no pair
-- takes none
pair_at : List (Text × Text) → Text → Text × ℕ
pair_at [] s = ([], 0)
pair_at ((old, new) ∷ pairs) s =
    let rest = pair_at pairs s in if has_prefix s old then (new, length old) else rest

-- `Replace`, where `skip` characters of a pair are still to be passed
unfoldable pub replace_pairs : ℕ → Text → Text
unfolding html_pairs pair_at
replace_pairs skip [] = []
replace_pairs (suc skip) (c ∷ s) = replace_pairs skip s
replace_pairs zero (c ∷ s) =
    let (new, size) = pair_at html_pairs (c ∷ s) in
    let kept = replace_pairs 0 s in
    let replaced = replace_pairs (size - 1) s in if size == 0 then c ∷ kept else new ++ replaced

has_char : ℕ → Text → Bool
has_char c [] = false
has_char c (d ∷ s) = d == c || has_char c s

-- a tag starts behind its "<": one character that is no ">", and a ">" behind it
opens : Text → Bool
opens [] = false
opens (c ∷ s) = not (c == b'>') && has_char b'>' s

-- `htmlTagPattern.ReplaceAllString(s, "")`, inside a tag or not
unfoldable pub strip_tags : Bool → Text → Text
unfolding opens has_char
strip_tags inside [] = []
strip_tags true (c ∷ s) =
    let within = strip_tags true s in
    let behind = strip_tags false s in if c == b'>' then behind else within
strip_tags false (c ∷ s) =
    let within = strip_tags true s in
    let behind = strip_tags false s in if c == b'<' && opens s then within else c ∷ behind

-- `strings.ReplaceAll(s, "\r\n", "\n")`
unfoldable pub to_lf : Text → Text
to_lf [] = []
to_lf (c ∷ s) =
    let rest = to_lf s in if c == 13 && has_prefix s (newline ∷ []) then rest else c ∷ rest

-- the loop over the lines: `some_` is `len(cleaned) > 0`
unfoldable pub clean_lines : Bool → Bool → List Text → List Text
clean_lines some_ last_blank [] = []
clean_lines some_ last_blank (l ∷ ls) =
    let blank = clean_lines some_ true ls in
    let kept = clean_lines true false ls in
    if text_eq (trim_space l) []
    then (if not last_blank && some_ then [] ∷ blank else blank)
    else trim_space l ∷ kept

-- the blank line at the end is taken away
unfoldable pub drop_last_blank : List Text → List Text
drop_last_blank [] = []
drop_last_blank (l ∷ []) = if text_eq l [] then [] else l ∷ []
drop_last_blank (l ∷ m ∷ ls) = l ∷ drop_last_blank (m ∷ ls)

module _ (to_lower unescape : Text → Text) where
  unfoldable pub without_html : Text → Text
  unfolding looks_like_html replace_pairs strip_tags
  without_html s =
      if looks_like_html (to_lower s) then unescape (strip_tags false (replace_pairs 0 s)) else s

  -- the lines that `normalizePlainTextContent` keeps
  unfoldable pub kept_lines : Text → List Text
  unfolding without_html to_lf clean_lines drop_last_blank
  kept_lines content =
      drop_last_blank
        (clean_lines false false (split newline (to_lf (without_html (trim_space content)))))

  unfoldable pub normalize_plain_text_content : Text → Text
  unfolding kept_lines
  normalize_plain_text_content content = join newline (kept_lines content)

  -- the text up to the first newline, and whether there is one
  before_newline : Text → Text
  before_newline [] = []
  before_newline (c ∷ s) = if c == newline then [] else c ∷ before_newline s

  behind_newline : Text → Text
  behind_newline [] = []
  behind_newline (c ∷ s) = if c == newline then s else behind_newline s

  without_opening : Text → Text
  unfolding before_newline behind_newline has_char fence
  without_opening s =
      if has_char newline s
      then if has_prefix (trim_space (before_newline s)) fence
        then trim_space (behind_newline s)
        else s
      else s

  has_suffix : Text → Text → Bool
  has_suffix s t = leb (length t) (length s) && text_eq (drop (length s - length t) s) t

  without_closing : Text → Text
  unfolding has_suffix fence
  without_closing s = if has_suffix s fence then trim_space (take (length s - 3) s) else s

  -- behind the fences
  finished : Text → Text → Text
  unfolding normalize_plain_text_content
  finished rendered_type s =
      if text_eq rendered_type (codes "text") || text_eq rendered_type (codes "docx")
      then normalize_plain_text_content s
      else s

  -- `cleanProviderResponse`: one line that is only an opening fence is dropped
  unfoldable pub clean_provider_response : Text → Text → Text
  unfolding without_opening without_closing finished has_char fence
  clean_provider_response content rendered_type =
      let s = trim_space content in
      if text_eq s []
      then s
      else if not (has_char newline s) && has_prefix s fence
      then []
      else finished rendered_type (without_closing (without_opening s))
